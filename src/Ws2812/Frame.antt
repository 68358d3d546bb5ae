-- ===== src/Ws2812/Frame.antt =====
-- ws2812.c: the events of the hardware timer send one pixel after the other.
use mathlib.Core.List.{append_assoc}
use esp_misc.Common.{
  ℕ, zero, suc, ◌+◌, ◌*◌, ◌<◌, ◌≡◌, refl, ◌∙◌, ap, true, List, [], ◌∷◌, ◌++◌, ltb, ◌==◌,
  if◌then◌else◌, arith,
}
use esp_misc.Ws2812.{
  pixel_count, anim_fade_inout, Strip, StripAction, hw_timer_arm, send_pixels, showit_fade, doit,
}
use esp_misc.Ws2812.Wave.{led_bits, led_bytes, IsBytes, pixel_received}

-- Events of the hardware timer.
unfoldable pub doits : ℕ → Strip → List StripAction × Strip
doits zero ws = ([], ws)
doits (suc n) ws =
    let (acts, after) = doit ws in let (more, end) = doits n after in (acts ++ more, end)

-- So many pixels of one colour.
abbrev pub pixels : ℕ → Strip → List ℕ
pixels zero ws = []
pixels (suc n) ws = ws.g ∷ ws.r ∷ ws.b ∷ pixels n ws

abbrev pub received : List StripAction × Strip → List ℕ × Strip
received (acts, ws) = (led_bytes (led_bits acts), ws)

module _ (ws : Strip) (bytes : IsBytes ws) (fading : ws.cur_anim ≡ anim_fade_inout) where
  abbrev at_pixel : ℕ → Strip
  at_pixel i = record ws { cur_pixel = i }

  pixel_step :
      (i : ℕ)
      → i < pixel_count
      → doit (at_pixel i) ≡ (send_pixels (at_pixel i) ++ (hw_timer_arm 10 ∷ []), at_pixel (i + 1))
  unfolding doit showit_fade
  pixel_step i lt =
      let is_fade : (ws.cur_anim == anim_fade_inout) ≡ true =
        ap (λ k. k == anim_fade_inout) fading in
      let inside : ltb i pixel_count ≡ true = ground (arith, lt) in
      rw (is_fade, inside, if◌then◌else◌)

  last_step : doit (at_pixel pixel_count) ≡ (hw_timer_arm 10 ∷ [], at_pixel 0)
  unfolding doit showit_fade
  last_step =
      let is_fade : (ws.cur_anim == anim_fade_inout) ≡ true =
        ap (λ k. k == anim_fade_inout) fading in
      rw (is_fade, if◌then◌else◌)

  next_pixel :
      (i n : ℕ)
      → i < pixel_count
      → received (doits (suc n) (at_pixel i)) ≡ (
          let (bytes, end) = received (doits n (at_pixel (i + 1))) in
          (ws.g ∷ ws.r ∷ ws.b ∷ bytes, end))
  unfolding doits
  next_pixel i n lt =
      let (more, end) = doits n (at_pixel (i + 1)) in
      ap
        (λ p.
          (let (acts, after) = p in
            let (others, last) = doits n after in received (acts ++ others, last)))
        (pixel_step i lt)
      ∙ ap (λ l. (led_bytes (led_bits l), end))
          (append_assoc (send_pixels (at_pixel i)) (hw_timer_arm 10 ∷ []) more)
      ∙ ap (λ l. (l, end)) (pixel_received (at_pixel i) (hw_timer_arm 10 ∷ more) bytes)

  frame_end :
      (n : ℕ) → received (doits (suc n) (at_pixel pixel_count)) ≡ received (doits n (at_pixel 0))
  unfolding doits
  frame_end n =
      ap
        (λ p.
          (let (acts, after) = p in
            let (others, last) = doits n after in received (acts ++ others, last)))
        last_step

  rest_of_frame :
      (j i n : ℕ)
      → i + j ≡ pixel_count
      → received (doits (j + suc n) (at_pixel i))
        ≡ (let (bytes, end) = received (doits n (at_pixel 0)) in (pixels j ws ++ bytes, end))
  rest_of_frame zero i n e =
      ap (λ k. received (doits k (at_pixel i))) (let f : 0 + suc n ≡ suc n = omega arith in f)
      ∙ ap (λ k. received (doits (suc n) (at_pixel k)))
          (let f : i ≡ pixel_count = omega (arith, e) in f)
      ∙ frame_end n
  rest_of_frame (suc j) i n e =
      ap (λ k. received (doits k (at_pixel i)))
        (let f : suc j + suc n ≡ suc (j + suc n) = omega arith in f)
      ∙ next_pixel i (j + suc n) (omega (arith, e))
      ∙ ap (λ p. (let (bytes, end) = p in (ws.g ∷ ws.r ∷ ws.b ∷ bytes, end)))
          (rest_of_frame j (i + 1) n (omega (arith, e)))

pixels-append : (j k : ℕ) (ws : Strip) → pixels j ws ++ pixels k ws ≡ pixels (j + k) ws
pixels-append zero k ws = ap (λ n. pixels n ws) (omega arith)
pixels-append (suc j) k ws =
    ap (λ l. ws.g ∷ ws.r ∷ ws.b ∷ l) (pixels-append j k ws)
    ∙ ap (λ n. pixels n ws) (let f : suc (j + k) ≡ suc j + k = omega arith in f)

-- While the strip is fading, every 33 events of the hardware timer, from the first pixel on, send the
-- colour once for each of the 32 pixels and nothing else, and lead back to the first pixel.
pub frames_received :
    (k : ℕ) (ws : Strip)
    → IsBytes ws
    → ws.cur_anim ≡ anim_fade_inout
    → received (doits (k * 33) (record ws { cur_pixel = 0 }))
      ≡ (pixels (k * 32) ws, record ws { cur_pixel = 0 })
unfolding doits
frames_received zero ws bytes fading = refl
frames_received (suc k) ws bytes fading =
    ap (λ n. received (doits n (record ws { cur_pixel = 0 })))
      (let f : suc k * 33 ≡ 32 + suc (k * 33) = omega arith in f)
    ∙ rest_of_frame ws bytes fading 32 0 (k * 33) refl
    ∙ ap (λ p. (let (sent, end) = p in (pixels 32 ws ++ sent, end)))
        (frames_received k ws bytes fading)
    ∙ ap (λ l. (l, record ws { cur_pixel = 0 })) (pixels-append 32 (k * 32) ws)
    ∙ ap (λ n. (pixels n ws, record ws { cur_pixel = 0 }))
        (let f : 32 + k * 32 ≡ suc k * 32 = omega arith in f)
