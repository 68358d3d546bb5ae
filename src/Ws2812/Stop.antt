-- ===== src/Ws2812/Stop.antt =====
-- ws2812.c: a strip that is stopped.
use esp_misc.Common.{
  ℕ, ◌≡◌, refl, ◌∙◌, ap, false, Bool-cases, inl, inr, List, [], ◌∷◌, ◌++◌, ◌==◌, if◌then◌else◌,
}
use mathlib.Core.Path.{ap₂}
use esp_misc.Ws2812.{
  anim_invalid, anim_fade_inout, Colour, Strip, Ws, StripAction, doit, patterns, colour_at,
  coloured, turned, anim_stop, fade_cb, timer_cb,
}
use esp_misc.Ws2812.Shown.{StripEvent, timer_event, hw_event, step_event}

doit_stopped : (ws : Strip) → ws.cur_anim ≡ anim_invalid → doit ws ≡ ([], ws)
unfolding doit
doit_stopped ws stopped =
    let off : (ws.cur_anim == anim_fade_inout) ≡ false = ap (λ k. k == anim_fade_inout) stopped in
    rw (off, if◌then◌else◌)

module _ (beyond : ℕ → Colour) where
  timer_stopped :
      (s : Ws)
      → s.strip.cur_anim ≡ anim_invalid
      → ((timer_cb beyond s).0 ≡ []) × ((timer_cb beyond s).1.strip.cur_anim ≡ anim_invalid)
  unfolding timer_cb fade_cb
  timer_stopped s stopped = elim (Bool-cases (s.timer_arg == anim_fade_inout)) [
    | inl e ↦
        (let f = turned s.fade in
          let lit = coloured (colour_at beyond patterns f.cur_pattern f.cur_m) s.strip in
          let nothing = doit_stopped lit stopped in
          (
            rw (e, if◌then◌else◌) (ap (λ p. p.0) nothing),
            rw (e, if◌then◌else◌) (ap (λ p. p.1.cur_anim) nothing ∙ stopped),
          ))
    | inr e ↦ (rw (e, if◌then◌else◌), rw (e, if◌then◌else◌) stopped)
  ]

  hw_stopped :
      (s : Ws)
      → s.strip.cur_anim ≡ anim_invalid
      → ((step_event beyond hw_event s).0 ≡ [])
        × ((step_event beyond hw_event s).1.strip.cur_anim ≡ anim_invalid)
  hw_stopped s stopped =
      let nothing = doit_stopped s.strip stopped in
      (ap (λ p. p.0) nothing, ap (λ p. p.1.cur_anim) nothing ∙ stopped)

  -- What is sent during the events.
  abbrev pub all_sent : List StripEvent → Ws → List StripAction
  all_sent [] s = []
  all_sent (e ∷ events) s = (step_event beyond e s).0 ++ all_sent events (step_event beyond e s).1

  stays_silent :
      (events : List StripEvent) (s : Ws) → s.strip.cur_anim ≡ anim_invalid → all_sent events s ≡ []
  stays_silent [] s stopped = refl
  stays_silent (timer_event ∷ events) s stopped =
      let (nothing, still) = timer_stopped s stopped in
      ap₂ (λ a b. a ++ b) nothing (stays_silent events (timer_cb beyond s).1 still)
  stays_silent (hw_event ∷ events) s stopped =
      let (nothing, still) = hw_stopped s stopped in
      ap₂ (λ a b. a ++ b) nothing (stays_silent events (step_event beyond hw_event s).1 still)

  -- After `ws2812_anim_stop` no callback of the timer and no event of the hardware timer, in any order
  -- and whatever was shown before, sends anything or arms a timer.
  pub stopped_silent : (events : List StripEvent) (s : Ws) → all_sent events (anim_stop s).1 ≡ []
  unfolding anim_stop
  stopped_silent events s = stays_silent events (anim_stop s).1 refl
