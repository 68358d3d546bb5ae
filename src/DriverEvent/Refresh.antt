-- ===== src/DriverEvent/Refresh.antt =====
-- driver_event.c: the strip is refreshed by the interrupts of the timer that it arms itself.
use mathlib.Core.List.{append_assoc}
use esp_misc.Common.{
  ℕ, zero, suc, ◌*◌, ◌%◌, ◌^◌, bit_and, ◌≤◌, ◌≡◌, refl, ◌∙◌, ap, Bool-cases, inl, inr, true, Option,
  none, some, List, [], ◌∷◌, ◌++◌, leb, ltb, ◌==◌, if◌then◌else◌, arith,
}
use esp_misc.HwTimer.{timer_ready, timer_active, HwTimer, hw_timer_isr_cb}
use esp_misc.HwTimer.Rows.{off, apb_clk_freq}
use esp_misc.HwTimer
use esp_misc.OneWire.Driver.{Driver}
use esp_misc.Ws2812.{
  pixel_count, anim_fade_inout, Strip, StripAction, spi_write, os_delay_us, intr_lock, intr_unlock,
  hw_timer_arm, os_timer_disarm, os_timer_arm, send_bits, send_pixels, showit_fade, doit,
}
use esp_misc.Ws2812.Wave.{led_bits, led_bytes, IsBytes}
use esp_misc.Ws2812.Frame.{doits, pixels, frames_received}
use esp_misc.DriverEvent.{
  Build, Handled, one_wire_done, strip_done, unknown_msg, hw_timer_cb, hw_timer_cb_posts,
  driver_event_task, driver_event_init,
}

-- The calls of `hw_timer_arm` among the actions; `none` when one is refused.
abbrev pub arms : List StripAction → HwTimer → Option HwTimer
arms [] t = some t
arms (spi_write bits out ∷ acts) t = arms acts t
arms (os_delay_us n ∷ acts) t = arms acts t
arms (intr_lock ∷ acts) t = arms acts t
arms (intr_unlock ∷ acts) t = arms acts t
arms (hw_timer_arm val ∷ acts) t =
    let (writes, (ok, u)) = HwTimer.hw_timer_arm apb_clk_freq val t in
    if ok then arms acts u else none
arms (os_timer_disarm ∷ acts) t = arms acts t
arms (os_timer_arm n ∷ acts) t = arms acts t

arms-send_bits :
    (n b : ℕ) (acts : List StripAction) (t : HwTimer) → arms (send_bits n b ++ acts) t ≡ arms acts t
unfolding send_bits
arms-send_bits zero b acts t = refl
arms-send_bits (suc n) b acts t = elim (Bool-cases (bit_and b (2 ^ 7) == 0)) [
  | inl e ↦ rw (e, if◌then◌else◌) (arms-send_bits n (b * 2 % 2 ^ 8) acts t)
  | inr e ↦ rw (e, if◌then◌else◌) (arms-send_bits n (b * 2 % 2 ^ 8) acts t)
]

arms-send_pixels :
    (ws : Strip) (acts : List StripAction) (t : HwTimer)
    → arms (send_pixels ws ++ acts) t ≡ arms acts t
unfolding send_pixels
arms-send_pixels ws acts t =
    ap (λ l. arms l t)
      (append_assoc (send_bits 8 ws.g)
        (send_bits 8 ws.r ++ (send_bits 8 ws.b ++ (intr_unlock ∷ []))) acts)
    ∙ arms-send_bits 8 ws.g ((send_bits 8 ws.r ++ (send_bits 8 ws.b ++ (intr_unlock ∷ []))) ++ acts)
        t
    ∙ ap (λ l. arms l t)
        (append_assoc (send_bits 8 ws.r) (send_bits 8 ws.b ++ (intr_unlock ∷ [])) acts)
    ∙ arms-send_bits 8 ws.r ((send_bits 8 ws.b ++ (intr_unlock ∷ [])) ++ acts) t
    ∙ ap (λ l. arms l t) (append_assoc (send_bits 8 ws.b) (intr_unlock ∷ []) acts)
    ∙ arms-send_bits 8 ws.b (intr_unlock ∷ acts) t

abbrev pub with_timer :
    List StripAction → Strip → Option HwTimer → Option (List StripAction × (HwTimer × Strip))
with_timer acts ws none = none
with_timer acts ws (some t) = some (acts, (t, ws))

abbrev pub strip_of : Handled → HwTimer → Option (List StripAction × (HwTimer × Strip))
strip_of (one_wire_done d acts) t = none
strip_of (strip_done ws acts) t = with_timer acts ws (arms acts t)
strip_of unknown_msg t = none

abbrev pub joined :
    List StripAction
    → Option (List StripAction × (HwTimer × Strip))
    → Option (List StripAction × (HwTimer × Strip))
joined acts none = none
joined acts (some (more, s)) = some (acts ++ more, s)

abbrev pub then_more :
    Option (List StripAction × (HwTimer × Strip))
    → (HwTimer × Strip → Option (List StripAction × (HwTimer × Strip)))
    → Option (List StripAction × (HwTimer × Strip))
then_more none more = none
then_more (some (acts, s)) more = joined acts (more s)

module _ (build : Build) (line : ℕ) (one_driver : Driver) where
  -- The function of the timer posts an event, which the task handles.
  abbrev pub fired : Option ℕ → HwTimer × Strip → Option (List StripAction × (HwTimer × Strip))
  fired none s = none
  fired (some cb) (t, ws) =
      if cb == hw_timer_cb
      then strip_of (driver_event_task build line hw_timer_cb_posts one_driver ws) t
      else none

  -- So many interrupts; `none` when one does not lead to the strip and a timer that is armed again.
  unfoldable pub interrupts : ℕ → HwTimer × Strip → Option (List StripAction × (HwTimer × Strip))
  interrupts zero s = some ([], s)
  interrupts (suc n) s = then_more (fired (hw_timer_isr_cb s.0) s) (interrupts n)

-- The timer may be armed, and calls the function of this file.
abbrev pub IsOurs : HwTimer → Type 0
IsOurs t = (timer_ready ≤ t.state) × (t.user_hw_timer_cb ≡ some hw_timer_cb)

arms_again :
    (t : HwTimer)
    → IsOurs t
    → arms (hw_timer_arm 10 ∷ []) t ≡ some (record t { state = timer_active })
unfolding HwTimer.hw_timer_arm
arms_again t (ready, ours) =
    let on : leb timer_ready t.state ≡ true = ground (arith, ready) in rw (on, if◌then◌else◌)

doit-arms :
    (ws : Strip) (t : HwTimer)
    → ws.cur_anim ≡ anim_fade_inout
    → IsOurs t
    → (arms (doit ws).0 t ≡ some (record t { state = timer_active }))
      × ((doit ws).1.cur_anim ≡ anim_fade_inout)
unfolding doit showit_fade
doit-arms ws t fading ours =
    let is_fade : (ws.cur_anim == anim_fade_inout) ≡ true = ap (λ k. k == anim_fade_inout) fading in
    elim (Bool-cases (ltb ws.cur_pixel pixel_count)) [
      | inl e ↦ (
        rw (is_fade, e, if◌then◌else◌)
            (arms-send_pixels ws (hw_timer_arm 10 ∷ []) t ∙ arms_again t ours),
        rw (is_fade, e, if◌then◌else◌) fading,
      )
      | inr e ↦ (
        rw (is_fade, e, if◌then◌else◌) (arms_again t ours),
        rw (is_fade, e, if◌then◌else◌) fading,
      )
    ]

module _ (build : Build) (line : ℕ) (one_driver : Driver)
    (built : build.en_ws8212_hpsi ≡ true) where
  to_strip :
      (ws : Strip)
      → driver_event_task build line hw_timer_cb_posts one_driver ws
        ≡ strip_done (doit ws).1 (doit ws).0
  unfolding driver_event_task
  to_strip ws = elim (Bool-cases build.en_temp_sensor) [
    | inl e ↦ rw (e, built, if◌then◌else◌)
    | inr e ↦ rw (e, built, if◌then◌else◌)
  ]

  one_interrupt :
      (t : HwTimer) (ws : Strip)
      → ws.cur_anim ≡ anim_fade_inout
      → IsOurs t
      → fired build line one_driver (hw_timer_isr_cb t) (t, ws)
        ≡ some ((doit ws).0, (record t { state = timer_active }, (doit ws).1))
  one_interrupt t ws fading ours =
      ap (λ cb. fired build line one_driver cb (t, ws)) ours.1
      ∙ ap (λ h. strip_of h t) (to_strip ws)
      ∙ ap (with_timer (doit ws).0 (doit ws).1) (doit-arms ws t fading ours).0

  interrupts_lem :
      (n : ℕ) (t : HwTimer) (ws : Strip)
      → ws.cur_anim ≡ anim_fade_inout
      → IsOurs t
      → (u : HwTimer) × ((interrupts build line one_driver n (t, ws)
            ≡ some ((doits n ws).0, (u, (doits n ws).1)))
          × IsOurs u)
  unfolding interrupts doits
  interrupts_lem zero t ws fading ours = (t, (refl, ours))
  interrupts_lem (suc n) t ws fading ours =
      let armed : HwTimer = record t { state = timer_active } in
      let (u, (e, still)) =
        interrupts_lem n armed (doit ws).1 (doit-arms ws t fading ours).1 (omega arith, ours.1) in
      (
        u,
        (
          ap (λ r. then_more r (interrupts build line one_driver n))
                (one_interrupt t ws fading ours)
              ∙ ap (joined (doit ws).0) e,
          still,
        ),
      )

  init-IsOurs : IsOurs (driver_event_init off)
  unfolding driver_event_init HwTimer.hw_timer_init HwTimer.hw_timer_set_func
  init-IsOurs = (omega arith, refl)

  -- In a firmware built with the strip, from `driver_event_init` on, with the strip fading in a colour of
  -- bytes at its first pixel: every 33 interrupts of the timer find the function of this file, which posts
  -- the event that makes the task send the next pixel and arm the timer again, which is never refused;
  -- the strip receives the colour once for each of its 32 pixels, and is left at its first pixel.
  pub interrupts_refresh :
      (k : ℕ) (ws : Strip)
      → IsBytes ws
      → ws.cur_anim ≡ anim_fade_inout
      → (u : HwTimer) × ((acts : List StripAction) × ((interrupts build line one_driver
                (k * 33)
                (driver_event_init off, record ws { cur_pixel = 0 })
              ≡ some (acts, (u, record ws { cur_pixel = 0 })))
            × (led_bytes (led_bits acts) ≡ pixels (k * 32) ws)))
  interrupts_refresh k ws bytes fading =
      let first : Strip = record ws { cur_pixel = 0 } in
      let (u, (e, ours)) =
        interrupts_lem (k * 33) (driver_event_init off) first fading init-IsOurs in
      let frames = frames_received k ws bytes fading in
      (
        u,
        (
          (doits (k * 33) first).0,
          (
            e ∙ ap (λ s. some ((doits (k * 33) first).0, (u, s))) (ap (λ p. p.1) frames),
            ap (λ p. p.0) frames,
          ),
        ),
      )
