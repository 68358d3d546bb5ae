-- ===== src/HwTimer/Rows.antt =====
-- hw_timer.c: any row of calls.
use esp_misc.Common.{
  ℕ, ◌*◌, ◌%◌, ◌^◌, ◌≤◌, ◌≡◌, refl, ◌∙◌, Bool, true, false, not, Option, none, some, List, [], ◌∷◌,
  All, ltb, leb, ◌==◌, if◌then◌else◌, arith,
}
use esp_misc.HwTimer.{
  timer_disabled, timer_init, timer_ready, timer_active, timer_stopped, HwTimer, TimerWrite,
  us_to_rtc_timer_ticks, hw_timer_isr_cb, hw_timer_disarm, hw_timer_arm, hw_timer_set_func,
  hw_timer_init, arm_internal, initialised, armed, disarm_internal,
}
use esp_misc.HwTimer.Frc1.{Frc1, all_written, IsRunning}

pub data TimerCall : Type 0 where
  init : (source req : ℕ) → TimerCall
  set_func : Option ℕ → TimerCall
  arm : ℕ → TimerCall
  disarm : TimerCall

-- A call of `hw_timer_set_func` hands over a function, not NULL.
abbrev pub IsSafe : TimerCall → Type 0
IsSafe (init source req) = Unit
IsSafe (set_func none) = ⊥
IsSafe (set_func (some cb)) = Unit
IsSafe (arm val) = Unit
IsSafe disarm = Unit

-- The clock of the bus, 80 MHz.
abbrev pub apb_clk_freq : ℕ
apb_clk_freq = 80000000

-- At 80 MHz a microsecond is five ticks.
ticks_lem : (t : ℕ) → us_to_rtc_timer_ticks apb_clk_freq t ≡ 5 * t % 2 ^ 32
unfolding us_to_rtc_timer_ticks
ticks_lem t = ground arith

-- A call, with what it does to the timer's registers.
unfoldable pub called : TimerCall → HwTimer × Frc1 → HwTimer × Frc1
called (init source req) (t, f) =
    let (writes, u) = hw_timer_init source req t in (u, all_written writes f)
called (set_func cb) (t, f) = ((hw_timer_set_func cb t).1, f)
called (arm val) (t, f) =
    let (writes, (ok, u)) = hw_timer_arm apb_clk_freq val t in (u, all_written writes f)
called disarm (t, f) = let (writes, u) = hw_timer_disarm t in (u, all_written writes f)

unfoldable pub all_called : List TimerCall → HwTimer × Frc1 → HwTimer × Frc1
all_called [] s = s
all_called (c ∷ calls) s = all_called calls (called c s)

-- The state before anything was called.
abbrev pub off : HwTimer
off = record { state = timer_disabled; autoload_en = false; user_hw_timer_cb = none }

-- What the state says of the callback and of the registers.
pub record IsTimer (t : HwTimer) (f : Frc1) : Type 0 where
  pub callback : timer_ready ≤ t.state → (cb : ℕ) × (t.user_hw_timer_cb ≡ some cb)
  pub active : t.state ≡ timer_active → IsRunning f

-- What holds of both branches holds of the test.
either_branch {ℓ ℓ'} :
    {A : Type ℓ} (P : A → Type ℓ') (b : Bool) (x y : A)
    → (b ≡ true → P x)
    → (b ≡ false → P y)
    → P (if b then x else y)
either_branch P true x y h k = h refl
either_branch P false x y h k = k refl

IsRunning-arm :
    (val : ℕ) (f : Frc1) (b : Bool)
    → (b ≡ false → IsRunning f)
    → IsRunning (all_written (arm_internal apb_clk_freq val b) f)
IsRunning-arm val f true h = record { counts = refl; takes = refl; edges = refl; interrupts = refl }
IsRunning-arm val f false h =
    let r = h refl in
    record { counts = r.counts; takes = r.takes; edges = r.edges; interrupts = r.interrupts }

called-IsTimer :
    (c : TimerCall) (t : HwTimer) (f : Frc1)
    → IsSafe c
    → IsTimer t f
    → IsTimer (called c (t, f)).0 (called c (t, f)).1
unfolding called hw_timer_init hw_timer_set_func hw_timer_arm hw_timer_disarm
called-IsTimer (init source req) t f safe h =
    either_branch {A = List TimerWrite × HwTimer} (λ p. IsTimer p.1 (all_written p.0 f))
      (t.state == timer_disabled) (initialised source (req == 1) t) ([], t)
      (λ e. record {
        callback = λ k. absurd (omega (arith, k));
        active = λ k. absurd (omega (arith, k));
      })
      (λ e. h)
called-IsTimer (set_func none) t f safe h = absurd safe
called-IsTimer (set_func (some cb)) t f safe h =
    either_branch {A = Bool × HwTimer} (λ p. IsTimer p.1 f) (ltb t.state timer_init) (false, t)
      (if t.state == timer_active
        then (false, t)
        else (true, record t { state = timer_ready; user_hw_timer_cb = some cb }))
      (λ e. h)
      (λ e.
        either_branch {A = Bool × HwTimer} (λ p. IsTimer p.1 f) (t.state == timer_active) (false, t)
          (true, record t { state = timer_ready; user_hw_timer_cb = some cb }) (λ d. h)
          (λ d. record { callback = λ k. (cb, refl); active = λ k. absurd (omega (arith, k)) }))
called-IsTimer (arm val) t f safe h =
    either_branch {A = List TimerWrite × (Bool × HwTimer)} (λ p. IsTimer p.1.1 (all_written p.0 f))
      (leb timer_ready t.state) (armed apb_clk_freq val t) ([], (false, t))
      (λ e. record {
        callback = λ k. h.callback (ground (arith, e));
        active = λ k.
            IsRunning-arm val f (not (t.state == timer_active)) (λ n. h.active (ground (arith, n)));
      })
      (λ e. h)
called-IsTimer disarm t f safe h =
    either_branch {A = List TimerWrite × HwTimer} (λ p. IsTimer p.1 (all_written p.0 f))
      (t.state == timer_active) (disarm_internal, record t { state = timer_stopped }) ([], t)
      (λ e. record {
        callback = λ k. h.callback (ground (arith, e));
        active = λ k. absurd (omega (arith, k));
      })
      (λ e. h)

all_called-IsTimer :
    (calls : List TimerCall) (t : HwTimer) (f : Frc1)
    → All IsSafe calls
    → IsTimer t f
    → IsTimer (all_called calls (t, f)).0 (all_called calls (t, f)).1
unfolding all_called
all_called-IsTimer [] t f safe h = h
all_called-IsTimer (c ∷ calls) t f (safe, all_safe) h =
    all_called-IsTimer calls (called c (t, f)).0 (called c (t, f)).1 all_safe
      (called-IsTimer c t f safe h)

arm_loads :
    (val : ℕ) (f : Frc1) (b : Bool)
    → (all_written (arm_internal apb_clk_freq val b) f).loaded
      ≡ us_to_rtc_timer_ticks apb_clk_freq val
arm_loads val f true = refl
arm_loads val f false = refl

-- What `hw_timer_arm` returns and leaves behind.
abbrev Arms : (val : ℕ) → Frc1 → List TimerWrite × (Bool × HwTimer) → Type 0
Arms val g p =
    let (writes, (ok, u)) = p in
    let h = all_written writes g in
    ok ≡ true
    → ((cb : ℕ) × (hw_timer_isr_cb u ≡ some cb)) × (IsRunning h × (h.loaded ≡ 5 * val % 2 ^ 32))

arm-Arms :
    (val : ℕ) (t : HwTimer) (g : Frc1) → IsTimer t g → Arms val g (hw_timer_arm apb_clk_freq val t)
unfolding hw_timer_arm
arm-Arms val t g h =
    either_branch {A = List TimerWrite × (Bool × HwTimer)} (Arms val g) (leb timer_ready t.state)
      (armed apb_clk_freq val t) ([], (false, t))
      (λ e ok. (
        h.callback (ground (arith, e)),
        (
          IsRunning-arm val g (not (t.state == timer_active)) (λ n. h.active (ground (arith, n))),
          arm_loads val g (not (t.state == timer_active)) ∙ ticks_lem val,
        ),
      ))
      (λ e ok. absurd (ground (arith, ok)))

-- After any row of calls of the functions of the timer in which `hw_timer_set_func` is never handed NULL,
-- whatever the registers held before, where the bus runs at 80 MHz: when `hw_timer_arm` returns true a
-- function of the user is set, which the interrupt calls, and the timer counts and interrupts, with five
-- ticks for each microsecond, modulo 2^32.
pub armed_interrupts :
    (calls : List TimerCall) (f : Frc1) (val : ℕ)
    → All IsSafe calls
    → (hw_timer_arm apb_clk_freq val (all_called calls (off, f)).0).1.0 ≡ true
    → let (t, g) = all_called calls (off, f) in
      let (writes, (ok, u)) = hw_timer_arm apb_clk_freq val t in
      let h = all_written writes g in
      ((cb : ℕ) × (hw_timer_isr_cb u ≡ some cb)) × (IsRunning h × (h.loaded ≡ 5 * val % 2 ^ 32))
armed_interrupts calls f val safe ok =
    let (t, g) = all_called calls (off, f) in
    let start : IsTimer off f = record {
      callback = λ k. absurd (omega (arith, k));
      active = λ k. absurd (omega (arith, k));
    } in
    arm-Arms val t g (all_called-IsTimer calls off f safe start) ok
