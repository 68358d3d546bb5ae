-- ===== src/Wifi.antt =====
-- The station's supervision: app_setup/setup/setup_event.c (its timers and its handler of WiFi events)
-- and setup_api.c. What the functions ask of the system is recorded as actions, in order; printing is
-- left out.
pub mod Connect
pub mod Restart
pub mod Watch
mod Tests
use esp_misc.Common.{
  ℕ, ◌+◌, ◌-◌, ◌/◌, ◌%◌, ◌^◌, Bool, true, false, Option, none, some, List, [], ◌∷◌, ◌++◌, bit_and,
  bit_or, bit_xor, ltb, leb, ◌==◌, ◌&&◌, if◌then◌else◌,
}

abbrev pub wifi_is_disconnected : ℕ
wifi_is_disconnected = 0

abbrev pub wifi_is_connected : ℕ
wifi_is_connected = 1

abbrev pub wifi_got_ip : ℕ
wifi_got_ip = 2

abbrev pub setup_conn_disconnected : ℕ
setup_conn_disconnected = 1

abbrev pub setup_conn_mqtt : ℕ
setup_conn_mqtt = 3

abbrev pub setup_conn_max : ℕ
setup_conn_max = 5

abbrev pub sntp_timeout : ℕ
sntp_timeout = 3523

abbrev pub reconnect_timout : ℕ
reconnect_timout = 4732

-- `DISCONNECTED_REBOOT_TIMOUT`, in milliseconds
abbrev pub disconnected_reboot_timout : ℕ
disconnected_reboot_timout = 300000

-- The functions that `timeout_cb` points to.
pub data Timeout : Type 0 where
  setup_ts_timeout : Timeout
  setup_reconnect : Timeout
  setup_state_timeout : Timeout
  setup_restart_sytem : Timeout

-- `SETUP_MON_T` and the static variables of setup_event.c; `wifi_state_change_cb` tells which of the
-- callbacks are there.
pub record Monitor : Type 0 where
  pub timeout_cb : Timeout
  pub conn_state : ℕ
  pub device_ct : ℕ
  pub state : ℕ
  pub wifi_state : ℕ
  pub wifi_reason : ℕ
  pub wifi_status_mq : ℕ
  pub last_wifi_status_mq : ℕ
  pub disconnected_time : ℕ
  pub got_sntp_ts : Bool
  pub wifi_state_change_cb : List Bool

pub data WifiAction : Type 0 where
  os_timer_disarm : WifiAction
  os_timer_arm : ℕ → WifiAction
  wifi_station_connect : WifiAction
  system_restart : WifiAction
  mqtt_setconn : ℕ → WifiAction
  netutil_nslookup : WifiAction
  notify : ℕ → ℕ → WifiAction

abbrev pub WifiEffect : Type 0
WifiEffect = Monitor × List WifiAction

-- What the system answers while a timer's callback runs: `wifi_station_get_connect_status` compared with
-- `STATION_GOT_IP`, and `sntp_get_current_timestamp`.
pub record Answers : Type 0 where
  pub station_got_ip : Bool
  pub timestamp : ℕ

unfoldable pub arm_state_timer : ℕ → Monitor → WifiEffect
arm_state_timer dt m =
    (record m { timeout_cb = setup_state_timeout }, os_timer_disarm ∷ os_timer_arm 15021 ∷ [])

unfoldable pub arm_sntp_timer : Monitor → WifiEffect
arm_sntp_timer m =
    (record m { timeout_cb = setup_ts_timeout }, os_timer_disarm ∷ os_timer_arm sntp_timeout ∷ [])

unfoldable pub arm_reconnect_timer : ℕ → Monitor → WifiEffect
arm_reconnect_timer delay m =
    (record m { timeout_cb = setup_reconnect }, os_timer_disarm ∷ os_timer_arm delay ∷ [])

unfoldable pub setup_state_timeout_cb : Answers → Monitor → WifiEffect
setup_state_timeout_cb seen m =
    let (n, acts) = arm_reconnect_timer 5000 m in
    if seen.station_got_ip then (m, os_timer_disarm ∷ []) else (n, os_timer_disarm ∷ acts)

unfoldable pub setup_ts_timeout_cb : Answers → Monitor → WifiEffect
setup_ts_timeout_cb seen m =
    let (n, acts) = arm_state_timer 10012 (record m { got_sntp_ts = true }) in
    if seen.timestamp == 0
    then (m, os_timer_disarm ∷ os_timer_arm 1053 ∷ [])
    else (n, os_timer_disarm ∷ acts)

unfoldable pub setup_reconnect_cb : Monitor → WifiEffect
setup_reconnect_cb m =
    let (n, acts) = arm_sntp_timer m in
    if m.conn_state == setup_conn_mqtt
    then (n, os_timer_disarm ∷ acts)
    else (m, os_timer_disarm ∷ wifi_station_connect ∷ os_timer_arm reconnect_timout ∷ [])

-- The call through `timeout_cb`.
abbrev pub on_timeout : Timeout → Answers → Monitor → WifiEffect
on_timeout setup_ts_timeout seen m = setup_ts_timeout_cb seen m
on_timeout setup_reconnect seen m = setup_reconnect_cb m
on_timeout setup_state_timeout seen m = setup_state_timeout_cb seen m
on_timeout setup_restart_sytem seen m = (m, system_restart ∷ [])

unfoldable pub setup_timer_cb : Answers → Monitor → WifiEffect
setup_timer_cb seen m =
    let (n, acts) = on_timeout m.timeout_cb seen m in (n, os_timer_disarm ∷ acts)

unfoldable pub setup_restart_soon : Monitor → WifiEffect
setup_restart_soon m =
    (record m { timeout_cb = setup_restart_sytem }, os_timer_disarm ∷ os_timer_arm 1234 ∷ [])

-- `setup_api_update_conn_state`
unfoldable pub update_conn_state : ℕ → Monitor → Monitor
update_conn_state state m = if ltb state setup_conn_max then record m { conn_state = state } else m

-- `setSetupState`; `state` has 16 bits.
unfoldable pub set_setup_state : (flag : ℕ) → (set : Bool) → Monitor → Monitor
set_setup_state flag set m =
    let mask = 2 ^ flag in
    if set
    then (if bit_and m.state mask == mask
        then m
        else record m { state = bit_or m.state mask % 2 ^ 16 })
    else record m { state = bit_xor m.state (bit_and m.state mask) }

-- `setup_api_update_device_ct`
unfoldable pub update_device_ct : (add_remove : Bool) → Monitor → Monitor
update_device_ct add_remove m =
    if add_remove
    then record m { device_ct = (m.device_ct + 1) % 2 ^ 8 }
    else record m { device_ct = (m.device_ct + 255) % 2 ^ 8 }

-- `wifiGetReason`, as a place of `wifiReasons`.
unfoldable pub wifi_get_reason : Monitor → ℕ
wifi_get_reason m =
    if leb m.wifi_reason 24
    then m.wifi_reason
    else if leb 200 m.wifi_reason && leb m.wifi_reason 201
    then m.wifi_reason - 200 + 24
    else 1

-- `statusWifiUpdate`; `now` is `system_get_time()`, in microseconds.
unfoldable pub status_wifi_update : (state now : ℕ) → Monitor → WifiEffect
status_wifi_update state now m =
    let n = record m { wifi_state = state } in
    if state == wifi_got_ip
    then (record n { disconnected_time = 0 }, [])
    else if m.disconnected_time == 0
    then (record n { disconnected_time = now / 1000 }, [])
    else if ltb disconnected_reboot_timout ((now / 1000 + 2 ^ 32 - m.disconnected_time) % 2 ^ 32)
    then (n, system_restart ∷ [])
    else (n, [])

-- `System_Event_t`, with what the handler reads of it.
pub data WifiEvent : Type 0 where
  stamode_connected : WifiEvent
  stamode_disconnected : (reason : ℕ) → WifiEvent
  stamode_authmode_change : WifiEvent
  stamode_got_ip : WifiEvent
  softapmode_staconnected : WifiEvent
  softapmode_stadisconnected : WifiEvent
  other_event : WifiEvent

-- The loop over the callbacks.
unfoldable pub notify_all : (i : ℕ) → List Bool → (state : ℕ) → List WifiAction
notify_all i [] state = []
notify_all i (true ∷ cbs) state = notify i state ∷ notify_all (i + 1) cbs state
notify_all i (false ∷ cbs) state = notify_all (i + 1) cbs state

abbrev pub notified : WifiEffect → WifiEffect
notified (m, acts) = (m, acts ++ notify_all 0 m.wifi_state_change_cb m.wifi_state)

-- `case EVENT_STAMODE_DISCONNECTED`, before the state is told on
unfoldable pub disconnected : ℕ → Monitor → WifiEffect
disconnected reason m =
    let (n, acts) = arm_reconnect_timer 5000 (record m {
      wifi_state = wifi_is_disconnected;
      conn_state = setup_conn_disconnected;
      wifi_reason = reason;
      wifi_status_mq = wifi_is_disconnected;
    }) in
    if m.wifi_state == wifi_is_disconnected then (m, []) else (n, mqtt_setconn 0 ∷ acts)

-- `case EVENT_STAMODE_GOT_IP`
unfoldable pub got_ip : ℕ → Monitor → WifiEffect
got_ip now m =
    let (n, acts) =
      status_wifi_update wifi_got_ip now (record m { wifi_state = wifi_got_ip; wifi_reason = 0 }) in
    let (o, more) = arm_reconnect_timer 1234 (record n { wifi_status_mq = 2 }) in
    (o, acts ++ (netutil_nslookup ∷ more))

-- `wifiHandleEventCb`, at the time `now`
unfoldable pub wifi_handle_event_cb : (now : ℕ) → WifiEvent → Monitor → WifiEffect
wifi_handle_event_cb now stamode_connected m = notified (
    status_wifi_update wifi_is_connected now (record m {
      last_wifi_status_mq = m.wifi_status_mq;
      wifi_state = wifi_is_connected;
      wifi_reason = 0;
    }))
wifi_handle_event_cb now (stamode_disconnected reason) m =
    let (n, acts) = disconnected reason (record m { last_wifi_status_mq = m.wifi_status_mq }) in
    let (o, more) = status_wifi_update n.wifi_state now n in notified (o, acts ++ more)
wifi_handle_event_cb now stamode_authmode_change m =
    notified (record m { last_wifi_status_mq = m.wifi_status_mq }, [])
wifi_handle_event_cb now stamode_got_ip m =
    notified (got_ip now (record m { last_wifi_status_mq = m.wifi_status_mq }))
wifi_handle_event_cb now softapmode_staconnected m =
    notified (record m { last_wifi_status_mq = m.wifi_status_mq }, [])
wifi_handle_event_cb now softapmode_stadisconnected m =
    notified (record m { last_wifi_status_mq = m.wifi_status_mq }, [])
wifi_handle_event_cb now other_event m = (record m { last_wifi_status_mq = m.wifi_status_mq }, [])

-- What may happen: a WiFi event, the timer, the MQTT client's report of its state, a wish to restart.
pub data Happening : Type 0 where
  wifi : (now : ℕ) → WifiEvent → Happening
  expired : Answers → Happening
  reported : (state : ℕ) → Happening
  restart_wanted : Happening

unfoldable pub happen : Happening → Monitor → WifiEffect
happen (wifi now event) m = wifi_handle_event_cb now event m
happen (expired seen) m = setup_timer_cb seen m
happen (reported state) m = (update_conn_state state m, [])
happen restart_wanted m = setup_restart_soon m

-- One after the other.
unfoldable pub happen_all : List Happening → Monitor → WifiEffect
happen_all [] m = (m, [])
happen_all (event ∷ events) m =
    let (n, acts) = happen event m in let (o, more) = happen_all events n in (o, acts ++ more)
