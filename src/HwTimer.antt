-- ===== src/HwTimer.antt =====
-- app_setup/driver/hw_timer.c with hw_timer.h: the wrapper of the hardware timer FRC1. Each function goes from
-- the static variables to the writes to registers, in order, what it returns and the new variables.
-- (hw_timer.c of app_main differs in the handling of the callback's argument.)
pub mod Frc1
pub mod Rows
mod Tests
use esp_misc.Common.{
  ℕ, ◌+◌, ◌*◌, ◌/◌, ◌%◌, ◌^◌, Bool, true, false, not, Option, none, some, List, [], ◌∷◌, ◌++◌, ltb,
  leb, ◌==◌, if◌then◌else◌,
}

-- `HW_TIMER_STATE_T`
abbrev pub timer_disabled : ℕ
timer_disabled = 0

abbrev pub timer_init : ℕ
timer_init = 1

abbrev pub timer_ready : ℕ
timer_ready = 2

abbrev pub timer_active : ℕ
timer_active = 3

abbrev pub timer_stopped : ℕ
timer_stopped = 4

-- The static variables; the function of the user is a number, `none` is NULL.
pub record HwTimer : Type 0 where
  pub state : ℕ
  pub autoload_en : Bool
  pub user_hw_timer_cb : Option ℕ

abbrev pub nmi_source : ℕ
nmi_source = 1

-- The bits of FRC1_CTRL: DIVIDED_BY_16, FRC1_AUTO_LOAD and FRC1_ENABLE_TIMER; TM_EDGE_INT is 0.
abbrev pub divided_by_16 : ℕ
divided_by_16 = 4

abbrev pub frc1_auto_load : ℕ
frc1_auto_load = 64

abbrev pub frc1_enable_timer : ℕ
frc1_enable_timer = 128

pub data TimerWrite : Type 0 where
  ctrl load : ℕ → TimerWrite
  isr_attach nmi_attach : TimerWrite
  edge_int frc1_intr : (enable : Bool) → TimerWrite

-- `US_TO_RTC_TIMER_TICKS`, in 32 bits; `apb` is APB_CLK_FREQ.
unfoldable pub us_to_rtc_timer_ticks : (apb t : ℕ) → ℕ
us_to_rtc_timer_ticks apb t =
    if t == 0
    then 0
    else if ltb 0x35a t
    then (t / 4 * (apb / 16 / 250000) + t % 4 * (apb / 16 / 1000000)) % 2 ^ 32
    else t * (apb / 16) % 2 ^ 32 / 1000000

-- `hw_timer_isr_cb`: the function that is called.
abbrev pub hw_timer_isr_cb : HwTimer → Option ℕ
hw_timer_isr_cb t = t.user_hw_timer_cb

-- `hw_timer_arm_internal`
abbrev pub arm_internal : (apb val : ℕ) (re_enable : Bool) → List TimerWrite
arm_internal apb val re_enable =
    (if re_enable
      then (ctrl (divided_by_16 + frc1_enable_timer)
          ∷ isr_attach
          ∷ edge_int true
          ∷ frc1_intr true
          ∷ [])
      else [])
    ++ (load (us_to_rtc_timer_ticks apb val) ∷ [])

-- `hw_timer_disarm_internal`
abbrev pub disarm_internal : List TimerWrite
disarm_internal = ctrl divided_by_16 ∷ edge_int false ∷ frc1_intr false ∷ []

-- `hw_timer_disarm`
unfoldable pub hw_timer_disarm : HwTimer → List TimerWrite × HwTimer
hw_timer_disarm t =
    if t.state == timer_active
    then (disarm_internal, record t { state = timer_stopped })
    else ([], t)

abbrev pub armed : (apb val : ℕ) → HwTimer → List TimerWrite × (Bool × HwTimer)
armed apb val t = (
  arm_internal apb val (not (t.state == timer_active)),
  (true, record t { state = timer_active }),
)

-- `hw_timer_arm`
unfoldable pub hw_timer_arm : (apb val : ℕ) → HwTimer → List TimerWrite × (Bool × HwTimer)
hw_timer_arm apb val t = if leb timer_ready t.state then armed apb val t else ([], (false, t))

-- `hw_timer_set_func`; `none` is NULL, which is taken like a function. A result of false is NULL.
unfoldable pub hw_timer_set_func : (cb : Option ℕ) → HwTimer → Bool × HwTimer
hw_timer_set_func cb t =
    if ltb t.state timer_init
    then (false, t)
    else if t.state == timer_active
    then (false, t)
    else (true, record t { state = timer_ready; user_hw_timer_cb = cb })

-- What `hw_timer_init` does to a timer that is disabled.
abbrev pub initialised : (source : ℕ) (auto : Bool) → HwTimer → List TimerWrite × HwTimer
initialised source auto t = (
  ctrl (divided_by_16 + (frc1_enable_timer + (if auto then frc1_auto_load else 0)))
      ∷ (if source == nmi_source then nmi_attach else isr_attach)
      ∷ edge_int true
      ∷ frc1_intr true
      ∷ [],
  record t { state = timer_init; autoload_en = auto },
)

-- `hw_timer_init`
unfoldable pub hw_timer_init : (source req : ℕ) → HwTimer → List TimerWrite × HwTimer
hw_timer_init source req t =
    if t.state == timer_disabled then initialised source (req == 1) t else ([], t)
