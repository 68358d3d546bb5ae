-- ===== src/Ws2812/Shown.antt =====
-- ws2812.c: what the strip shows from `ws2812_anim_init` on.
use esp_misc.Common.{
  ℕ, zero, suc, ◌+◌, ◌*◌, ◌/◌, ◌%◌, ◌<◌, ◌≤◌, ◌≡◌, refl, sym, ◌∙◌, ap, true, Bool-cases, inl, inr,
  List, [], ◌∷◌, ◌++◌, All, length, ltb, ◌==◌, if◌then◌else◌, arith,
}
use mathlib.Core.Path.{subst, ap₂}
use esp_misc.Ws2812.{
  pixel_count, anim_fade_inout, Colour, Strip, Ws, StripAction, hw_timer_arm, send_pixels,
  showit_fade, doit, mod_brightness, patterns, colour_at, turned, count_m, coloured, anim_init,
  fade_cb, timer_cb,
}
use esp_misc.Ws2812.Wave.{led_bits, led_bytes, pixel_received}
use esp_misc.Ws2812.Phase.{begun, after, strength, next_pattern, Phase, step-Phase, colour_phase}

-- The timer of the fading, or the hardware timer, which sends the next pixel.
pub data StripEvent : Type 0 where
  timer_event hw_event : StripEvent

-- Where the fading stands after so many callbacks.
abbrev position : ℕ → ℕ × ℕ
position k = (k / 510 % 9, k % 510)

after-position : (k : ℕ) → after (position k) ≡ position (k + 1)
after-position k = elim (Bool-cases (k % 510 == 509)) [
  | inl e ↦
      rw (e, if◌then◌else◌)
        (ap₂ (λ j i. (j, i))
          (let f : next_pattern (k / 510 % 9) ≡ (k + 1) / 510 % 9 = ground (arith, e) in f)
          (let f : 0 ≡ (k + 1) % 510 = ground (arith, e) in f))
  | inr e ↦
      rw (e, if◌then◌else◌)
        (ap₂ (λ j i. (j, i)) (let f : k / 510 % 9 ≡ (k + 1) / 510 % 9 = ground (arith, e) in f)
          (let f : k % 510 + 1 ≡ (k + 1) % 510 = ground (arith, e) in f))
]

product_small : (a b : ℕ) → a ≤ 256 → b ≤ 255 → a * b / 256 < 256
product_small a b h k = grind arith

-- The rows of `patterns` are at most 256 256ths.
abbrev IsRow : Colour → Type 0
IsRow (x, (y, z)) = (x ≤ 256) × ((y ≤ 256) × (z ≤ 256))

abbrev IsSmall : Colour → Type 0
IsSmall (x, (y, z)) = (x < 256) × ((y < 256) × (z < 256))

rows_are : All IsRow patterns
rows_are = ground arith

module _ (beyond : ℕ → Colour) where
  colour-IsSmall :
      (rows : List Colour) (j m : ℕ)
      → All IsRow rows
      → j < length rows
      → m ≤ 255
      → IsSmall (colour_at beyond rows j m)
  unfolding colour_at
  colour-IsSmall [] j m are_rows within low = absurd (omega (arith, within))
  colour-IsSmall ((x, (y, z)) ∷ rows) zero m ((hx, (hy, hz)), are_rows) within low =
      (product_small x m hx low, (product_small y m hy low, product_small z m hz low))
  colour-IsSmall (row ∷ rows) (suc j) m (h, are_rows) within low =
      colour-IsSmall rows j m are_rows (omega (arith, within)) low

  patterns-IsSmall :
      (j i : ℕ) → j < 9 → i < 510 → IsSmall (colour_at beyond patterns j (strength i))
  patterns-IsSmall j i small low =
      colour-IsSmall patterns j (strength i) rows_are small (ground (arith, low))

mod_brightness_low : (level p : ℕ) → level < 256 → p < 256 → mod_brightness level p < 256
mod_brightness_low level p h k = elim (Bool-cases (level == 0)) [
  | inl e ↦ rw (e, if◌then◌else◌) k
  | inr e ↦ rw (e, if◌then◌else◌) (product_small p level (omega (arith, k)) (omega (arith, h)))
]

module _ (beyond : ℕ → Colour) where
  abbrev pub step_event : StripEvent → Ws → List StripAction × Ws
  step_event timer_event s = timer_cb beyond s
  step_event hw_event s = let (acts, ws) = doit s.strip in (acts, record s { strip = ws })

  -- What the events leave behind.
  abbrev pub happen_all : List StripEvent → Ws → Ws
  happen_all [] s = s
  happen_all (e ∷ events) s = happen_all events (step_event e s).1

abbrev pub callbacks : List StripEvent → ℕ
callbacks [] = 0
callbacks (timer_event ∷ events) = callbacks events + 1
callbacks (hw_event ∷ events) = callbacks events

-- The fading runs, and `k` callbacks were made.
pub record Runs (level k : ℕ) (s : Ws) : Type 0 where
  pub timer : s.timer_arg ≡ anim_fade_inout
  pub fading : s.strip.cur_anim ≡ anim_fade_inout
  pub bright : s.strip.brightness ≡ level
  pub phase : Phase (position k) s.fade

begin_Runs : (s : Ws) → Runs s.strip.brightness 0 (anim_init anim_fade_inout s).1
unfolding anim_init
begin_Runs s = record { timer = refl; fading = refl; bright = refl; phase = begun }

-- The strip after a pixel was sent, or not.
doit_strip :
    (ws : Strip)
    → ws.cur_anim ≡ anim_fade_inout
    → (c : ℕ) × ((doit ws).1 ≡ record ws { cur_pixel = c })
unfolding doit showit_fade
doit_strip ws fading =
    let is_fade : (ws.cur_anim == anim_fade_inout) ≡ true = ap (λ k. k == anim_fade_inout) fading in
    elim (Bool-cases (ltb ws.cur_pixel pixel_count)) [
      | inl e ↦ (ws.cur_pixel + 1, rw (is_fade, e, if◌then◌else◌))
      | inr e ↦ (0, rw (is_fade, e, if◌then◌else◌))
    ]

-- From the first pixel on.
doit_first :
    (ws : Strip)
    → ws.cur_anim ≡ anim_fade_inout
    → ws.cur_pixel ≡ 0
    → doit ws ≡ (send_pixels ws ++ (hw_timer_arm 10 ∷ []), record ws { cur_pixel = 1 })
unfolding doit showit_fade
doit_first ws fading first =
    let is_fade : (ws.cur_anim == anim_fade_inout) ≡ true = ap (λ k. k == anim_fade_inout) fading in
    let inside : ltb ws.cur_pixel pixel_count ≡ true = ap (λ k. ltb k pixel_count) first in
    rw (is_fade, inside, first)

module _ (beyond : ℕ → Colour) (black : beyond 0 ≡ (0, (0, 0))) where
  abbrev shown : (level k : ℕ) → Colour
  shown level k =
      let (x, (y, z)) = colour_at beyond patterns (k / 510 % 9) (strength (k % 510)) in
      (mod_brightness level x, (mod_brightness level y, mod_brightness level z))

  -- A callback of the timer.
  timer_Runs :
      (level k : ℕ) (s : Ws)
      → Runs level k s
      → (lit : Strip) × ((timer_cb beyond s ≡ (
        send_pixels lit ++ (hw_timer_arm 10 ∷ []),
        record s { strip = record lit { cur_pixel = 1 }; fade = count_m (turned s.fade) },
      ))
          × (((lit.r, (lit.g, lit.b)) ≡ shown level k)
              × Runs level (k + 1) (record s {
                strip = record lit { cur_pixel = 1 };
                fade = count_m (turned s.fade);
              })))
  unfolding timer_cb fade_cb
  timer_Runs level k s h =
      let f = turned s.fade in
      let lit = coloured (colour_at beyond patterns f.cur_pattern f.cur_m) s.strip in
      let on : (s.timer_arg == anim_fade_inout) ≡ true = ap (λ t. t == anim_fade_inout) h.timer in
      let same = colour_phase beyond black (k / 510 % 9) (k % 510) s.fade h.phase in
      (
        lit,
        (
          rw (on, if◌then◌else◌)
              (ap (λ p. (p.0, record s { strip = p.1; fade = count_m f }))
                (doit_first lit h.fading refl)),
          (
            ap₂
                (λ c level. (
                  mod_brightness level c.0,
                  (mod_brightness level c.1.0, mod_brightness level c.1.1),
                ))
                same h.bright,
            record {
              timer = h.timer;
              fading = h.fading;
              bright = h.bright;
              phase =
                  subst (λ p. Phase p (count_m f)) (after-position k)
                    (step-Phase (k / 510 % 9) (k % 510) s.fade h.phase);
            },
          ),
        ),
      )

  -- An event of the hardware timer.
  hw_Runs :
      (level k : ℕ) (s : Ws) → Runs level k s → Runs level k (record s { strip = (doit s.strip).1 })
  hw_Runs level k s h =
      let (c, e) = doit_strip s.strip h.fading in
      subst (λ ws. Runs level k (record s { strip = ws })) (sym e)
        (record { timer = h.timer; fading = h.fading; bright = h.bright; phase = h.phase })

  happen_all-Runs :
      (level k : ℕ) (events : List StripEvent) (s : Ws)
      → Runs level k s
      → Runs level (k + callbacks events) (happen_all beyond events s)
  happen_all-Runs level k [] s h = subst (λ n. Runs level n s) (omega arith) h
  happen_all-Runs level k (timer_event ∷ events) s h =
      let (lit, (e, (same, runs))) = timer_Runs level k s h in
      subst (λ n. Runs level n (happen_all beyond events (timer_cb beyond s).1))
        (let f : k + 1 + callbacks events ≡ k + (callbacks events + 1) = omega arith in f)
        (happen_all-Runs level (k + 1) events (timer_cb beyond s).1
          (subst (λ p. Runs level (k + 1) p.1) (sym e) runs))
  happen_all-Runs level k (hw_event ∷ events) s h =
      happen_all-Runs level k events (record s { strip = (doit s.strip).1 }) (hw_Runs level k s h)

  shown-IsSmall : (level k : ℕ) → level < 256 → IsSmall (shown level k)
  shown-IsSmall level k h =
      let (x, (y, z)) = colour_at beyond patterns (k / 510 % 9) (strength (k % 510)) in
      let (hx, (hy, hz)) =
        patterns-IsSmall beyond (k / 510 % 9) (k % 510) (omega arith) (omega arith) in
      (
        mod_brightness_low level x h hx,
        (mod_brightness_low level y h hy, mod_brightness_low level z h hz),
      )

  -- After `ws2812_anim_init` with the fading, whatever callbacks of the timer and events of the hardware
  -- timer follow in any order, where the colour behind the table at strength 0 is black and the
  -- brightness is a byte: the next callback sends one pixel, which the LED receives as the green, red
  -- and blue byte of the pattern whose turn it is, each of the nine for 510 callbacks, at a strength that
  -- goes up from 0 to 255 and down again, one step at each callback, dimmed by the brightness.
  pub fading_shown :
      (events : List StripEvent) (s : Ws)
      → s.strip.brightness < 256
      → let k = callbacks events in
        let (x, (y, z)) = colour_at beyond patterns (k / 510 % 9) (strength (k % 510)) in
        let dim = mod_brightness s.strip.brightness in
        led_bytes
          (led_bits (timer_cb beyond (happen_all beyond events (anim_init anim_fade_inout s).1)).0)
        ≡ dim y ∷ dim x ∷ dim z ∷ []
  fading_shown events s level =
      let k = callbacks events in
      let runs =
        happen_all-Runs s.strip.brightness 0 events (anim_init anim_fade_inout s).1
          (begin_Runs s) in
      let (lit, (e, (same, next))) =
        timer_Runs s.strip.brightness k (happen_all beyond events (anim_init anim_fade_inout s).1) (
          subst
            (λ n.
              Runs s.strip.brightness n (happen_all beyond events (anim_init anim_fade_inout s).1))
            (let f : 0 + k ≡ k = omega arith in f) runs) in
      ap (λ p. led_bytes (led_bits p.0)) e
      ∙ pixel_received lit (hw_timer_arm 10 ∷ [])
          (subst IsSmall (sym same) (shown-IsSmall s.strip.brightness k level))
      ∙ ap (λ c. c.1.0 ∷ c.0 ∷ c.1.1 ∷ []) same
