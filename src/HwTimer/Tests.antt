-- ===== src/HwTimer/Tests.antt =====
-- Concrete calls.
use esp_misc.Common.{ℕ, ◌*◌, ◌%◌, ◌^◌, ◌≡◌, refl, some, false, List, [], ◌∷◌}
use esp_misc.HwTimer.{
  hw_timer_isr_cb, hw_timer_set_func, hw_timer_init, hw_timer_arm, hw_timer_disarm,
}
use esp_misc.HwTimer.Frc1.{Frc1, all_written, IsRunning}
use esp_misc.HwTimer.Rows.{
  TimerCall, init, set_func, arm, disarm, called, all_called, off, apb_clk_freq, armed_interrupts,
}

abbrev calls : List TimerCall
calls =
    init 0 0
    ∷ arm 10
    ∷ set_func (some 7)
    ∷ arm 10
    ∷ set_func (some 8)
    ∷ disarm
    ∷ set_func (some 9)
    ∷ []

abbrev blank : Frc1
blank = record { counting = false; loaded = 0; attached = false; edge = false; intr = false }

armed_interrupts_example :
    let (t, g) = all_called calls (off, blank) in
    let (writes, (ok, u)) = hw_timer_arm apb_clk_freq 1000 t in
    let h = all_written writes g in
    ((cb : ℕ) × (hw_timer_isr_cb u ≡ some cb)) × (IsRunning h × (h.loaded ≡ 5 * 1000 % 2 ^ 32))
unfolding all_called called hw_timer_init hw_timer_set_func hw_timer_arm hw_timer_disarm
armed_interrupts_example =
    armed_interrupts calls blank 1000 (tt, (tt, (tt, (tt, (tt, (tt, (tt, tt))))))) refl
