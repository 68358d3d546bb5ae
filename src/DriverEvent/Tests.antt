-- ===== src/DriverEvent/Tests.antt =====
-- A strip in one colour.
use esp_misc.Common.{◌*◌, ◌≡◌, refl, true, false, some, List, [], replicate, arith}
use esp_misc.HwTimer.{HwTimer}
use esp_misc.HwTimer.Rows.{off}
use esp_misc.OneWire.Driver.{Driver, no_callback}
use esp_misc.Ws2812.{Strip, StripAction}
use esp_misc.Ws2812.Wave.{led_bits, led_bytes}
use esp_misc.Ws2812.Frame.{pixels}
use esp_misc.DriverEvent.{Build, driver_event_init}
use esp_misc.DriverEvent.Refresh.{interrupts, interrupts_refresh}

abbrev strip_build : Build
strip_build = record { en_temp_sensor = true; en_ws8212_hpsi = true; use_p_pwr = false }

abbrev cleared : Driver
cleared = record {
  seq_arr = [];
  arg_arr = [];
  seq_len = 0;
  seq_state = 0;
  seq_pos = 0;
  op_type = 0;
  cur_op = 0;
  delay_count = 0;
  spad_buf = replicate 9 0;
  uuid = replicate 8 0;
  error = 0;
  callback = no_callback;
  read_mask = 0;
  reads_left = 0;
  read_count = 0;
  read_data = 0;
  write_mask = 0;
  write_data = 0;
}

abbrev purple : Strip
purple = record { r = 90; g = 5; b = 120; brightness = 128; cur_pixel = 7; cur_anim = 1 }

interrupts_refresh_example :
    (u : HwTimer) × ((acts : List StripAction) × ((interrupts strip_build 1 cleared
            (2 * 33)
            (driver_event_init off, record purple { cur_pixel = 0 })
          ≡ some (acts, (u, record purple { cur_pixel = 0 })))
        × (led_bytes (led_bits acts) ≡ pixels (2 * 32) purple)))
interrupts_refresh_example =
    interrupts_refresh strip_build 1 cleared refl 2 purple (omega arith, (omega arith, omega arith))
      refl
