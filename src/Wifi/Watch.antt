-- ===== src/Wifi/Watch.antt =====
-- setup_event.c and setup_api.c: the timer while the station has no address.
use esp_misc.Common.{
  ℕ, ◌≡◌, ◌⊎◌, inl, inr, refl, ◌∙◌, ap, Bool, true, false, List, [], ◌∷◌, ◌++◌, All, arith, ◌||◌,
  ◌+◌,
}
use esp_misc.Wifi.{
  wifi_is_connected, wifi_got_ip, Monitor, WifiAction, os_timer_disarm, os_timer_arm,
  wifi_station_connect, system_restart, mqtt_setconn, netutil_nslookup, notify, WifiEffect, Answers,
  Timeout, setup_ts_timeout, setup_reconnect, setup_state_timeout, setup_restart_sytem,
  arm_state_timer, arm_sntp_timer, arm_reconnect_timer, setup_state_timeout_cb, setup_ts_timeout_cb,
  setup_reconnect_cb, on_timeout, setup_timer_cb, setup_restart_soon, status_wifi_update, WifiEvent,
  stamode_connected, stamode_disconnected, stamode_authmode_change, stamode_got_ip,
  softapmode_staconnected, softapmode_stadisconnected, other_event, notify_all, notified,
  disconnected, got_ip, wifi_handle_event_cb, Happening, wifi, expired, reported, restart_wanted,
  happen, happen_all,
}

-- The vendor's timer fires once for each time it is armed, unless it is disarmed before.
unfoldable pub timer_armed : Bool → List WifiAction → Bool
timer_armed armed [] = armed
timer_armed armed (os_timer_disarm ∷ acts) = timer_armed false acts
timer_armed armed (os_timer_arm ms ∷ acts) = timer_armed true acts
timer_armed armed (wifi_station_connect ∷ acts) = timer_armed armed acts
timer_armed armed (system_restart ∷ acts) = timer_armed armed acts
timer_armed armed (mqtt_setconn n ∷ acts) = timer_armed armed acts
timer_armed armed (netutil_nslookup ∷ acts) = timer_armed armed acts
timer_armed armed (notify i state ∷ acts) = timer_armed armed acts

unfoldable pub asks_restart : List WifiAction → Bool
asks_restart [] = false
asks_restart (os_timer_disarm ∷ acts) = asks_restart acts
asks_restart (os_timer_arm ms ∷ acts) = asks_restart acts
asks_restart (wifi_station_connect ∷ acts) = asks_restart acts
asks_restart (system_restart ∷ acts) = true
asks_restart (mqtt_setconn n ∷ acts) = asks_restart acts
asks_restart (netutil_nslookup ∷ acts) = asks_restart acts
asks_restart (notify i state ∷ acts) = asks_restart acts

-- No expiry of the timer finds the station with an address.
abbrev pub IsUnaddressed : Happening → Type 0
IsUnaddressed (wifi now event) = Unit
IsUnaddressed (expired seen) = seen.station_got_ip ≡ false
IsUnaddressed (reported state) = Unit
IsUnaddressed restart_wanted = Unit

-- The timer is armed after the actions, if it was armed before, or a restart is asked for.
abbrev pub IsWatched : List WifiAction → Type 0
IsWatched acts = (timer_armed true acts ≡ true) ⊎ (asks_restart acts ≡ true)

armed-++ :
    (b : Bool) (xs ys : List WifiAction)
    → timer_armed b (xs ++ ys) ≡ timer_armed (timer_armed b xs) ys
unfolding timer_armed
armed-++ b [] ys = refl
armed-++ b (os_timer_disarm ∷ xs) ys = armed-++ false xs ys
armed-++ b (os_timer_arm ms ∷ xs) ys = armed-++ true xs ys
armed-++ b (wifi_station_connect ∷ xs) ys = armed-++ b xs ys
armed-++ b (system_restart ∷ xs) ys = armed-++ b xs ys
armed-++ b (mqtt_setconn n ∷ xs) ys = armed-++ b xs ys
armed-++ b (netutil_nslookup ∷ xs) ys = armed-++ b xs ys
armed-++ b (notify i state ∷ xs) ys = armed-++ b xs ys

restart-++ :
    (xs ys : List WifiAction) → asks_restart (xs ++ ys) ≡ (asks_restart xs || asks_restart ys)
unfolding asks_restart
restart-++ [] ys = refl
restart-++ (os_timer_disarm ∷ xs) ys = restart-++ xs ys
restart-++ (os_timer_arm ms ∷ xs) ys = restart-++ xs ys
restart-++ (wifi_station_connect ∷ xs) ys = restart-++ xs ys
restart-++ (system_restart ∷ xs) ys = refl
restart-++ (mqtt_setconn n ∷ xs) ys = restart-++ xs ys
restart-++ (netutil_nslookup ∷ xs) ys = restart-++ xs ys
restart-++ (notify i state ∷ xs) ys = restart-++ xs ys

pub or_true : (b : Bool) → (b || true) ≡ true
or_true true = refl
or_true false = refl

IsWatched-++ : (xs ys : List WifiAction) → IsWatched xs → IsWatched ys → IsWatched (xs ++ ys)
IsWatched-++ xs ys (inl p) (inl q) = inl (armed-++ true xs ys ∙ ap (λ b. timer_armed b ys) p ∙ q)
IsWatched-++ xs ys (inr p) q = inr (restart-++ xs ys ∙ ap (λ b. b || asks_restart ys) p)
IsWatched-++ xs ys (inl p) (inr q) =
    inr (restart-++ xs ys ∙ ap (λ b. asks_restart xs || b) q ∙ or_true (asks_restart xs))

notify_all-armed :
    (b : Bool) (i : ℕ) (cbs : List Bool) (state : ℕ) → timer_armed b (notify_all i cbs state) ≡ b
unfolding timer_armed notify_all
notify_all-armed b i [] state = refl
notify_all-armed b i (true ∷ cbs) state = notify_all-armed b (i + 1) cbs state
notify_all-armed b i (false ∷ cbs) state = notify_all-armed b (i + 1) cbs state

notified-IsWatched : (e : WifiEffect) → IsWatched e.1 → IsWatched (notified e).1
notified-IsWatched (m, acts) w =
    IsWatched-++ acts (notify_all 0 m.wifi_state_change_cb m.wifi_state) w
      (inl (notify_all-armed true 0 m.wifi_state_change_cb m.wifi_state))

status-IsWatched : (state now : ℕ) (m : Monitor) → IsWatched (status_wifi_update state now m).1
unfolding status_wifi_update timer_armed asks_restart
status-IsWatched state now m = ground arith

disconnected-IsWatched : (reason : ℕ) (m : Monitor) → IsWatched (disconnected reason m).1
unfolding disconnected arm_reconnect_timer timer_armed asks_restart
disconnected-IsWatched reason m = ground arith

got_ip-IsWatched : (now : ℕ) (m : Monitor) → IsWatched (got_ip now m).1
unfolding got_ip arm_reconnect_timer timer_armed asks_restart
got_ip-IsWatched now m =
    IsWatched-++
      (status_wifi_update wifi_got_ip now
        (record m { wifi_state = wifi_got_ip; wifi_reason = 0 })).1
      (netutil_nslookup ∷ os_timer_disarm ∷ os_timer_arm 1234 ∷ [])
      (status-IsWatched wifi_got_ip now (record m { wifi_state = wifi_got_ip; wifi_reason = 0 }))
      (inl refl)

wifi-IsWatched :
    (now : ℕ) (event : WifiEvent) (m : Monitor) → IsWatched (wifi_handle_event_cb now event m).1
unfolding wifi_handle_event_cb timer_armed
wifi-IsWatched now stamode_connected m =
    let n = record m {
      last_wifi_status_mq = m.wifi_status_mq;
      wifi_state = wifi_is_connected;
      wifi_reason = 0;
    } in
    notified-IsWatched (status_wifi_update wifi_is_connected now n)
      (status-IsWatched wifi_is_connected now n)
wifi-IsWatched now (stamode_disconnected reason) m =
    let n = record m { last_wifi_status_mq = m.wifi_status_mq } in
    let o = (disconnected reason n).0 in
    notified-IsWatched
      (
        (status_wifi_update o.wifi_state now o).0,
        (disconnected reason n).1 ++ (status_wifi_update o.wifi_state now o).1,
      )
      (IsWatched-++ (disconnected reason n).1 (status_wifi_update o.wifi_state now o).1
        (disconnected-IsWatched reason n) (status-IsWatched o.wifi_state now o))
wifi-IsWatched now stamode_authmode_change m =
    notified-IsWatched (record m { last_wifi_status_mq = m.wifi_status_mq }, []) (inl refl)
wifi-IsWatched now stamode_got_ip m =
    let n = record m { last_wifi_status_mq = m.wifi_status_mq } in
    notified-IsWatched (got_ip now n) (got_ip-IsWatched now n)
wifi-IsWatched now softapmode_staconnected m =
    notified-IsWatched (record m { last_wifi_status_mq = m.wifi_status_mq }, []) (inl refl)
wifi-IsWatched now softapmode_stadisconnected m =
    notified-IsWatched (record m { last_wifi_status_mq = m.wifi_status_mq }, []) (inl refl)
wifi-IsWatched now other_event m = inl refl

timeout-IsWatched :
    (t : Timeout) (seen : Answers) (m : Monitor)
    → seen.station_got_ip ≡ false
    → IsWatched (os_timer_disarm ∷ (on_timeout t seen m).1)
unfolding setup_state_timeout_cb setup_ts_timeout_cb setup_reconnect_cb arm_sntp_timer
    arm_state_timer arm_reconnect_timer timer_armed asks_restart
timeout-IsWatched setup_ts_timeout seen m e = ground arith
timeout-IsWatched setup_reconnect seen m e = ground arith
timeout-IsWatched setup_state_timeout seen m e = ground (arith, e)
timeout-IsWatched setup_restart_sytem seen m e = inr refl

happen-IsWatched :
    (event : Happening) (m : Monitor) → IsUnaddressed event → IsWatched (happen event m).1
unfolding happen setup_timer_cb setup_restart_soon timer_armed
happen-IsWatched (wifi now event) m u = wifi-IsWatched now event m
happen-IsWatched (expired seen) m u = timeout-IsWatched m.timeout_cb seen m u
happen-IsWatched (reported state) m u = inl refl
happen-IsWatched restart_wanted m u = inl refl

-- Whatever happens, in any order and at any times: as long as no expiry of the timer finds that the
-- station has an address, the timer is armed afterwards if it was armed at first, or a restart has been
-- asked for.
pub happen_all-IsWatched :
    (events : List Happening) (m : Monitor)
    → All IsUnaddressed events
    → IsWatched (happen_all events m).1
unfolding happen_all timer_armed
happen_all-IsWatched [] m u = inl refl
happen_all-IsWatched (event ∷ events) m (u, us) =
    IsWatched-++ (happen event m).1 (happen_all events (happen event m).0).1
      (happen-IsWatched event m u) (happen_all-IsWatched events (happen event m).0 us)
