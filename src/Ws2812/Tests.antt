-- ===== src/Ws2812/Tests.antt =====
-- A strip, and a few events.
use esp_misc.Common.{ℕ, ◌≡◌, refl, true, List, [], ◌∷◌, arith}
use esp_misc.Ws2812.{
  anim_fade_inout, Colour, Strip, Ws, mod_brightness, colour_at, anim_init, anim_stop, timer_cb,
}
use esp_misc.Ws2812.Wave.{led_bits, led_bytes}
use esp_misc.Ws2812.Shown.{StripEvent, timer_event, hw_event, happen_all, fading_shown}
use esp_misc.Ws2812.Stop.{all_sent, stopped_silent}

abbrev purple : Strip
purple = record { r = 90; g = 5; b = 120; brightness = 128; cur_pixel = 7; cur_anim = 1 }

abbrev strip : Ws
strip = record {
  strip = purple;
  fade = record { cur_m = 77; cur_pattern = 3; in_out = true };
  timer_arg = 0;
}

abbrev beyond : ℕ → Colour
beyond m = (0, (m, 0))

abbrev events : List StripEvent
events = timer_event ∷ timer_event ∷ hw_event ∷ timer_event ∷ hw_event ∷ hw_event ∷ []

fading_shown_example :
    led_bytes
      (led_bits (timer_cb beyond (happen_all beyond events (anim_init anim_fade_inout strip).1)).0)
    ≡ mod_brightness 128 0 ∷ mod_brightness 128 3 ∷ mod_brightness 128 0 ∷ []
unfolding colour_at
fading_shown_example = fading_shown beyond refl events strip (omega arith)

stopped_silent_example : all_sent beyond events (anim_stop strip).1 ≡ []
stopped_silent_example = stopped_silent beyond events strip
