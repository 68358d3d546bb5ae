-- ===== src/Ws2812.antt =====
-- app_setup/driver/ws2812.c with ws2812.h: the driver of a strip of WS2812 LEDs on the SPI bus, and its
-- fading colours. `Strip` and `Fade` are `ws2812_driver_t` and `ws2812_fade_inout_t`. (ws2812.c of app_main
-- is an older driver.)
pub mod Wave
pub mod Frame
pub mod Phase
pub mod Shown
pub mod Stop
mod Tests
use esp_misc.Common.{
  ℕ, zero, suc, ◌+◌, ◌-◌, ◌*◌, ◌/◌, ◌%◌, ◌^◌, bit_and, Bool, true, false, not, ◌&&◌, List, [], ◌∷◌,
  ◌++◌, ltb, leb, ◌==◌, if◌then◌else◌,
}

abbrev pub pixel_count : ℕ
pixel_count = 32

abbrev pub anim_invalid : ℕ
anim_invalid = 0

abbrev pub anim_fade_inout : ℕ
anim_fade_inout = 1

-- A colour: red, green and blue.
abbrev pub Colour : Type 0
Colour = ℕ × (ℕ × ℕ)

pub record Strip : Type 0 where
  pub r : ℕ
  pub g : ℕ
  pub b : ℕ
  pub brightness : ℕ
  pub cur_pixel : ℕ
  pub cur_anim : ℕ

pub record Fade : Type 0 where
  pub cur_m : ℕ
  pub cur_pattern : ℕ
  pub in_out : Bool

-- The static variables: the strip, the fading and the argument of the timer.
pub record Ws : Type 0 where
  pub strip : Strip
  pub fade : Fade
  pub timer_arg : ℕ

-- What the driver asks of the hardware and the system; `spi_write bits out` is `spi_transaction` with `bits`
-- bits of `out` to send and nothing else.
pub data StripAction : Type 0 where
  spi_write : (bits out : ℕ) → StripAction
  os_delay_us : ℕ → StripAction
  intr_lock intr_unlock : StripAction
  hw_timer_arm : ℕ → StripAction
  os_timer_disarm : StripAction
  os_timer_arm : ℕ → StripAction

abbrev pub one_bits : ℕ
one_bits = 26

abbrev pub one_out : ℕ
one_out = 0x3fff000

abbrev pub zero_bits : ℕ
zero_bits = 23

abbrev pub zero_out : ℕ
zero_out = 0x7f0000

-- `ws2812_sendByte`, for so many bits.
unfoldable pub send_bits : (rounds b : ℕ) → List StripAction
send_bits zero b = []
send_bits (suc n) b =
    (if bit_and b (2 ^ 7) == 0 then spi_write zero_bits zero_out else spi_write one_bits one_out)
    ∷ os_delay_us 1
    ∷ send_bits n (b * 2 % 2 ^ 8)

abbrev pub send_byte : ℕ → List StripAction
send_byte b = send_bits 8 b

-- `ws2812_sendPixels`
unfoldable pub send_pixels : Strip → List StripAction
send_pixels ws =
    intr_lock ∷ (send_byte ws.g ++ (send_byte ws.r ++ (send_byte ws.b ++ (intr_unlock ∷ []))))

-- `ws2812_showit_fade`
unfoldable pub showit_fade : Strip → List StripAction × Strip
showit_fade ws =
    if ltb ws.cur_pixel pixel_count
    then (send_pixels ws, record ws { cur_pixel = ws.cur_pixel + 1 })
    else ([], record ws { cur_pixel = 0 })

-- `ws2812_doit`
unfoldable pub doit : Strip → List StripAction × Strip
doit ws =
    let (acts, shown) = showit_fade ws in
    if ws.cur_anim == anim_fade_inout then (acts ++ (hw_timer_arm 10 ∷ []), shown) else ([], ws)

-- `MOD_BRIGHTNESS` under the test of `UPDATE_BRIGHTNESS`.
abbrev pub mod_brightness : (level pixel : ℕ) → ℕ
mod_brightness level pixel = if level == 0 then pixel else pixel * level / 256

-- `patterns`, in 256ths.
abbrev pub patterns : List Colour
patterns =
    (256, (0, 0))
    ∷ (0, (256, 0))
    ∷ (0, (0, 256))
    ∷ (256, (256, 0))
    ∷ (256, (0, 256))
    ∷ (0, (256, 256))
    ∷ (256, (256, 256))
    ∷ (160, (82, 45))
    ∷ (46, (139, 87))
    ∷ []

abbrev pub scaled : (m : ℕ) → Colour → Colour
scaled m (x, (y, z)) = (x * m / 256, (y * m / 256, z * m / 256))

-- `patterns[cur_pattern][...] * cur_m`; behind the table it is `beyond`.
unfoldable pub colour_at : (beyond : ℕ → Colour) → List Colour → (pattern m : ℕ) → Colour
colour_at beyond [] pattern m = beyond m
colour_at beyond (row ∷ rows) zero m = scaled m row
colour_at beyond (row ∷ rows) (suc pattern) m = colour_at beyond rows pattern m

-- The three tests at the beginning of `ws2812_fade_cb`.
unfoldable pub wrap_pattern : Fade → Fade
wrap_pattern f = if leb 9 f.cur_pattern then record f { cur_pattern = 0 } else f

unfoldable pub turn_down : Fade → Fade
turn_down f = if f.in_out && leb 255 f.cur_m then record f { in_out = false } else f

unfoldable pub turn_up : Fade → Fade
turn_up f =
    if not f.in_out && (f.cur_m == 0)
    then record f { cur_pattern = (f.cur_pattern + 1) % 2 ^ 8; in_out = true }
    else f

-- Its end.
unfoldable pub count_m : Fade → Fade
count_m f = record f { cur_m = (if f.in_out then f.cur_m + 1 else f.cur_m + (2 ^ 8 - 1)) % 2 ^ 8 }

abbrev pub turned : Fade → Fade
turned f = turn_up (turn_down (wrap_pattern f))

-- `ws->cur_pixel = 0`, the colour, and `UPDATE_BRIGHTNESS`.
abbrev pub coloured : Colour → Strip → Strip
coloured (x, (y, z)) ws = record ws {
  r = mod_brightness ws.brightness x;
  g = mod_brightness ws.brightness y;
  b = mod_brightness ws.brightness z;
  cur_pixel = 0;
}

-- `ws2812_show`
abbrev pub show : List StripAction
show = os_delay_us 9 ∷ []

abbrev pub cleared : Strip → Strip
cleared ws = record ws { r = 0; g = 0; b = 0 }

-- `ws2812_clear`
abbrev pub clear : Strip → List StripAction × Strip
clear ws = (show ++ (send_pixels (cleared ws) ++ show), cleared ws)

-- `ws2812_set_brightness`
abbrev pub set_brightness : ℕ → Ws → Ws
set_brightness b s = record s { strip = record s.strip { brightness = b } }

-- `ws2812_anim_stop`
unfoldable pub anim_stop : Ws → List StripAction × Ws
anim_stop s =
    let (acts, dark) = clear s.strip in
    (acts ++ (os_timer_disarm ∷ []), record s { strip = record dark { cur_anim = anim_invalid } })

-- The period of the timer: 5 seconds for 255 callbacks, in milliseconds.
abbrev pub ms_div_per_cb : ℕ
ms_div_per_cb = 19

-- `ws2812_anim_init`
unfoldable pub anim_init : (anim_type : ℕ) → Ws → List StripAction × Ws
anim_init anim_type s =
    if anim_type == anim_fade_inout
    then (let (acts, dark) = clear (record s.strip { cur_anim = anim_fade_inout }) in
        (
          os_timer_disarm ∷ (acts ++ (os_timer_arm ms_div_per_cb ∷ [])),
          record {
            strip = dark;
            fade = record { cur_m = 0; cur_pattern = 0; in_out = true };
            timer_arg = anim_fade_inout;
          },
        ))
    else (let (acts, dark) = clear s.strip in (os_timer_disarm ∷ acts, record s { strip = dark }))

-- `ws2812_init`, without the set-up of the bus.
unfoldable pub init : Ws → List StripAction × Ws
init s =
    let (acts, dark) = clear s.strip in
    (acts ++ (os_timer_disarm ∷ []), record s { strip = record dark { brightness = 128 } })

module _ (beyond : ℕ → Colour) where
  -- `ws2812_fade_cb`
  unfoldable pub fade_cb : Ws → List StripAction × Ws
  fade_cb s =
      let f = turned s.fade in
      let (acts, ws) = doit (coloured (colour_at beyond patterns f.cur_pattern f.cur_m) s.strip) in
      (acts, record s { strip = ws; fade = count_m f })

  -- `ws2812_timer_cb`
  unfoldable pub timer_cb : Ws → List StripAction × Ws
  timer_cb s = if s.timer_arg == anim_fade_inout then fade_cb s else ([], s)
