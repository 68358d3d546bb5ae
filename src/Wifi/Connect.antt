-- ===== src/Wifi/Connect.antt =====
-- setup_event.c: how the timer's callbacks lead to another attempt to connect.
use mathlib.Core.Path.{subst}
use esp_misc.Common.{
  ◌≡◌, ◌≢◌, ◌⊎◌, inl, inr, refl, ==-false, sym, ◌∙◌, ap, Bool, true, false, List, [], ◌∷◌, ◌++◌,
  if◌then◌else◌, All, ◌||◌,
}
use esp_misc.Wifi.{
  Monitor, WifiAction, os_timer_disarm, os_timer_arm, wifi_station_connect, system_restart,
  mqtt_setconn, netutil_nslookup, notify, Answers, Timeout, setup_ts_timeout, setup_reconnect,
  setup_state_timeout, setup_restart_sytem, arm_state_timer, arm_reconnect_timer,
  setup_state_timeout_cb, setup_ts_timeout_cb, setup_reconnect_cb, setup_timer_cb, Happening,
  expired, happen, happen_all, setup_conn_mqtt,
}
use esp_misc.Wifi.Watch.{IsUnaddressed, or_true}

unfoldable pub asks_connect : List WifiAction → Bool
asks_connect [] = false
asks_connect (os_timer_disarm ∷ acts) = asks_connect acts
asks_connect (os_timer_arm ms ∷ acts) = asks_connect acts
asks_connect (wifi_station_connect ∷ acts) = true
asks_connect (system_restart ∷ acts) = asks_connect acts
asks_connect (mqtt_setconn n ∷ acts) = asks_connect acts
asks_connect (netutil_nslookup ∷ acts) = asks_connect acts
asks_connect (notify i state ∷ acts) = asks_connect acts

connect-++ :
    (xs ys : List WifiAction) → asks_connect (xs ++ ys) ≡ (asks_connect xs || asks_connect ys)
unfolding asks_connect
connect-++ [] ys = refl
connect-++ (os_timer_disarm ∷ xs) ys = connect-++ xs ys
connect-++ (os_timer_arm ms ∷ xs) ys = connect-++ xs ys
connect-++ (wifi_station_connect ∷ xs) ys = refl
connect-++ (system_restart ∷ xs) ys = connect-++ xs ys
connect-++ (mqtt_setconn n ∷ xs) ys = connect-++ xs ys
connect-++ (netutil_nslookup ∷ xs) ys = connect-++ xs ys
connect-++ (notify i state ∷ xs) ys = connect-++ xs ys

connect_first : (xs ys : List WifiAction) → asks_connect xs ≡ true → asks_connect (xs ++ ys) ≡ true
connect_first xs ys e = connect-++ xs ys ∙ ap (λ b. b || asks_connect ys) e

connect_later : (xs ys : List WifiAction) → asks_connect ys ≡ true → asks_connect (xs ++ ys) ≡ true
connect_later xs ys e =
    connect-++ xs ys ∙ ap (λ b. asks_connect xs || b) e ∙ or_true (asks_connect xs)

Timeout-cases :
    (t : Timeout)
    → t ≢ setup_restart_sytem
    → (t ≡ setup_reconnect) ⊎ ((t ≡ setup_state_timeout) ⊎ (t ≡ setup_ts_timeout))
Timeout-cases setup_ts_timeout other = inr (inr refl)
Timeout-cases setup_reconnect other = inl refl
Timeout-cases setup_state_timeout other = inr (inl refl)
Timeout-cases setup_restart_sytem other = elim (other refl) [ ]

expired_reconnect :
    (seen : Answers) (m : Monitor)
    → m.timeout_cb ≡ setup_reconnect
    → m.conn_state ≢ setup_conn_mqtt
    → asks_connect (happen (expired seen) m).1 ≡ true
unfolding happen setup_timer_cb setup_reconnect_cb asks_connect
expired_reconnect seen m e other =
    rw (e, ==-false m.conn_state setup_conn_mqtt other, if◌then◌else◌)

expired_state :
    (seen : Answers) (m : Monitor)
    → m.timeout_cb ≡ setup_state_timeout
    → seen.station_got_ip ≡ false
    → (happen (expired seen) m).0 ≡ record m { timeout_cb = setup_reconnect }
unfolding happen setup_timer_cb setup_state_timeout_cb arm_reconnect_timer
expired_state seen m e none_yet = rw (e, none_yet, if◌then◌else◌)

expired_ts :
    (seen : Answers) (m : Monitor)
    → m.timeout_cb ≡ setup_ts_timeout
    → seen.timestamp ≢ 0
    → (happen (expired seen) m).0
      ≡ record m { timeout_cb = setup_state_timeout; got_sntp_ts = true }
unfolding happen setup_timer_cb setup_ts_timeout_cb arm_state_timer
expired_ts seen m e some_time = rw (e, ==-false seen.timestamp 0 some_time, if◌then◌else◌)

from_reconnect :
    (seen : Answers) (events : List Happening) (m : Monitor)
    → m.timeout_cb ≡ setup_reconnect
    → m.conn_state ≢ setup_conn_mqtt
    → asks_connect (happen_all (expired seen ∷ events) m).1 ≡ true
unfolding happen_all
from_reconnect seen events m e other =
    connect_first (happen (expired seen) m).1 (happen_all events (happen (expired seen) m).0).1
      (expired_reconnect seen m e other)

from_state :
    (seen next : Answers) (events : List Happening) (m : Monitor)
    → m.timeout_cb ≡ setup_state_timeout
    → m.conn_state ≢ setup_conn_mqtt
    → seen.station_got_ip ≡ false
    → asks_connect (happen_all (expired seen ∷ expired next ∷ events) m).1 ≡ true
unfolding happen_all
from_state seen next events m e other none_yet =
    connect_later (happen (expired seen) m).1
      (happen_all (expired next ∷ events) (happen (expired seen) m).0).1
      (subst (λ n. asks_connect (happen_all (expired next ∷ events) n).1 ≡ true)
        (sym (expired_state seen m e none_yet))
        (from_reconnect next events (record m { timeout_cb = setup_reconnect }) refl other))

from_ts :
    (seen next last : Answers) (events : List Happening) (m : Monitor)
    → m.timeout_cb ≡ setup_ts_timeout
    → m.conn_state ≢ setup_conn_mqtt
    → seen.timestamp ≢ 0
    → next.station_got_ip ≡ false
    → asks_connect (happen_all (expired seen ∷ expired next ∷ expired last ∷ events) m).1 ≡ true
unfolding happen_all
from_ts seen next last events m e other some_time none_yet =
    connect_later (happen (expired seen) m).1
      (happen_all (expired next ∷ expired last ∷ events) (happen (expired seen) m).0).1
      (subst (λ n. asks_connect (happen_all (expired next ∷ expired last ∷ events) n).1 ≡ true)
        (sym (expired_ts seen m e some_time))
        (from_state next last events
          (record m { timeout_cb = setup_state_timeout; got_sntp_ts = true }) refl other none_yet))

-- No restart waits, MQTT is not connected, the time is known at the first expiry of the timer, and no
-- expiry finds that the station has an address: the third expiry at the latest asks for a connection.
pub connects_in_three :
    (m : Monitor) (a b c : Answers)
    → m.timeout_cb ≢ setup_restart_sytem
    → m.conn_state ≢ setup_conn_mqtt
    → All IsUnaddressed (expired a ∷ expired b ∷ expired c ∷ [])
    → a.timestamp ≢ 0
    → asks_connect (happen_all (expired a ∷ expired b ∷ expired c ∷ []) m).1 ≡ true
connects_in_three m a b c running other (no_a, (no_b, (no_c, u))) some_time =
    elim (Timeout-cases m.timeout_cb running) [
      | inl e ↦ from_reconnect a (expired b ∷ expired c ∷ []) m e other
      | inr (inl e) ↦ from_state a b (expired c ∷ []) m e other no_a
      | inr (inr e) ↦ from_ts a b c [] m e other some_time no_b
    ]
