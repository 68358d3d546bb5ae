-- ===== src/Wifi/Tests.antt =====
-- Concrete runs of the supervision.
use mathlib.Core.Path.{subst, sym}
use esp_misc.Common.{ℕ, ◌≡◌, ◌≢◌, refl, true, false, List, [], ◌∷◌, arith}
use esp_misc.Wifi.{
  wifi_is_disconnected, wifi_is_connected, wifi_got_ip, setup_ts_timeout, setup_restart_sytem,
  Timeout, Monitor, system_restart, Answers, status_wifi_update, stamode_connected,
  stamode_disconnected, stamode_got_ip, Happening, wifi, expired, reported, happen_all,
}
use esp_misc.Wifi.Watch.{IsWatched, happen_all-IsWatched}
use esp_misc.Wifi.Connect.{asks_connect, connects_in_three}
use esp_misc.Wifi.Restart.{Update, updated, restart_when_overdue}

abbrev booted : Monitor
booted = record {
  timeout_cb = setup_ts_timeout;
  conn_state = 1;
  device_ct = 1;
  state = 0;
  wifi_state = wifi_is_disconnected;
  wifi_reason = 0;
  wifi_status_mq = 0;
  last_wifi_status_mq = 0;
  disconnected_time = 0;
  got_sntp_ts = false;
  wifi_state_change_cb = false ∷ true ∷ false ∷ false ∷ [];
}

abbrev nothing : Answers
nothing = record { station_got_ip = false; timestamp = 0 }

abbrev dated : Answers
dated = record { station_got_ip = false; timestamp = 1478000000 }

abbrev day : List Happening
day =
    wifi 2000000 stamode_connected
    ∷ wifi 3000000 stamode_got_ip
    ∷ reported 3
    ∷ expired nothing
    ∷ expired dated
    ∷ wifi 90000000 (stamode_disconnected 8)
    ∷ expired nothing
    ∷ []

happen_all-IsWatched_example : IsWatched (happen_all day booted).1
happen_all-IsWatched_example =
    happen_all-IsWatched day booted (tt, (tt, (tt, (refl, (refl, (tt, (refl, tt)))))))

IsRestart : Timeout → Type 0
IsRestart setup_restart_sytem = Unit
IsRestart t = ⊥

ts_runs : setup_ts_timeout ≢ setup_restart_sytem
unfolding IsRestart
ts_runs e = subst IsRestart (sym e) tt

connects_in_three_example :
    asks_connect (happen_all (expired dated ∷ expired dated ∷ expired nothing ∷ []) booted).1 ≡ true
connects_in_three_example =
    connects_in_three booted dated dated nothing ts_runs (omega arith) (refl, (refl, (refl, tt)))
      (omega arith)

abbrev at : ℕ → ℕ → Update
at told now = record { told = told; now = now }

-- Five minutes and a second without an address.
restart_when_overdue_example :
    (status_wifi_update wifi_is_disconnected 402000000 (
      updated
        (at wifi_got_ip 100000000
          ∷ at wifi_is_disconnected 101000000
          ∷ at wifi_is_connected 200000000
          ∷ [])
        booted)).1
    ≡ system_restart ∷ []
restart_when_overdue_example =
    restart_when_overdue booted (at wifi_got_ip 100000000) (at wifi_is_disconnected 101000000)
      (at wifi_is_disconnected 402000000) (at wifi_is_connected 200000000 ∷ []) refl
      (omega arith, (omega arith, tt)) (omega arith) (omega arith) (omega arith) (omega arith)
