-- ===== src/DriverEvent.antt =====
-- app_setup/driver/driver_event.c: the task that handles the events of the hardware timer, for the 1-Wire driver
-- or for the strip of LEDs. (The events of the 1-Wire driver go to the task of setup_event.c where that is
-- the timer's function.)
pub mod Refresh
mod Tests
use esp_misc.Common.{some, ℕ, Bool, ◌==◌, ◌&&◌, if◌then◌else◌, List}
use esp_misc.HwTimer.{HwTimer, hw_timer_init, hw_timer_set_func}
use esp_misc.OneWire.Driver.{Driver, Action}
use esp_misc.OneWire.Machine.{on_event}
use esp_misc.Ws2812.{Strip, StripAction, doit}

abbrev pub driver_src_onewire : ℕ
driver_src_onewire = 1

abbrev pub driver_src_ws2812 : ℕ
driver_src_ws2812 = 2

-- The options that the firmware is built with.
pub record Build : Type 0 where
  pub en_temp_sensor : Bool
  pub en_ws8212_hpsi : Bool
  pub use_p_pwr : Bool

-- What an event leads to, with the driver's new state.
pub data Handled : Type 0 where
  one_wire_done : Driver → List Action → Handled
  strip_done : Strip → List StripAction → Handled
  unknown_msg : Handled

-- The number of `hw_timer_cb` among the functions of the timer, and the signal that it posts.
abbrev pub hw_timer_cb : ℕ
hw_timer_cb = 1

abbrev pub hw_timer_cb_posts : ℕ
hw_timer_cb_posts = driver_src_ws2812

-- `Driver_Event_Task`
unfoldable pub driver_event_task : Build → (line sig : ℕ) → Driver → Strip → Handled
driver_event_task build line sig one_driver ws =
    let (d, acts) = on_event build.use_p_pwr line one_driver in
    let (shown, sent) = doit ws in
    if build.en_temp_sensor && (sig == driver_src_onewire)
    then one_wire_done d acts
    else if build.en_ws8212_hpsi && (sig == driver_src_ws2812)
    then strip_done sent shown
    else unknown_msg

-- `driver_event_init`: what becomes of the timer.
unfoldable pub driver_event_init : HwTimer → HwTimer
driver_event_init t = (hw_timer_set_func (some hw_timer_cb) (hw_timer_init 0 0 t).1).1
