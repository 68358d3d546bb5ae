-- ===== src/OneWire/Missed.antt =====
-- A sequence whose reset no device answers, from its first event to what the callback asks for.
use mathlib.Core.Path.{subst}
use mathlib.Core.List.{append_assoc}
use esp_misc.Common.{
  ℕ, ◌≡◌, ◌≢◌, refl, sym, ◌∙◌, ap, Bool, List, [], ◌∷◌, ◌++◌, length, replicate, All, get_or,
}
use esp_misc.OneWire.Driver.{
  seq_state_init, seq_state_done, error_none, error_reset_resp_timeout, op_reset,
  reset_op_wait_60_resp, output, release, Action, Callback, no_callback, read_uuid_done,
  conv_t_done, read_temp_done, Driver,
}
use esp_misc.OneWire.Machine.{make_call, run}
use esp_misc.OneWire.Runs.{armed}
use esp_misc.OneWire.Reset.{IsHigh, resetting, reset_timeout}
use esp_misc.OneWire.Whole.{begun, begin_run}
use esp_misc.OneWire.Sensor.{
  Sensor, Request, hw_timer_disarm, handle_error, read_temp_done_cb, conv_t_done_cb,
  read_uuid_done_cb, call_back,
}

-- The levels at the events of a reset that finds no device.
abbrev pub silent_events : (first : ℕ) (low high : List ℕ) (end : ℕ) → List ℕ
silent_events first low high end = (first ∷ []) ++ (low ++ (high ++ (end ∷ [])))

abbrev pub IsDisarm : Request → Type 0
IsDisarm r = r ≡ hw_timer_disarm

-- The driver behind it.
abbrev timed_out : Driver → Driver
timed_out d = record (resetting reset_op_wait_60_resp 0 (begun d)) {
  error = error_reset_resp_timeout;
  seq_state = seq_state_done;
}

-- What this callback leaves and asks for, called with this driver.
abbrev pub Stops : Callback → Sensor → Driver → Type 0
Stops cb s d =
    let (t, asked) = call_back cb (record s { driver = d }) in
    All IsDisarm asked
    × ((t.driver.seq_state ≡ seq_state_done)
        × ((t.driver.error ≡ error_none)
            × ((t.timer_arg ≡ s.timer_arg) × (t.latest_temp ≡ s.latest_temp))))

callback-Stops :
    (cb : Callback) (s : Sensor) (d : Driver) → cb ≢ no_callback → Stops cb s (timed_out d)
unfolding call_back read_uuid_done_cb conv_t_done_cb read_temp_done_cb handle_error
callback-Stops no_callback s d some = absurd (some refl)
callback-Stops read_uuid_done s d some = ((refl, tt), (refl, (refl, (refl, refl))))
callback-Stops conv_t_done s d some = ((refl, tt), (refl, (refl, (refl, refl))))
callback-Stops read_temp_done s d some = ((refl, (refl, tt)), (refl, (refl, (refl, refl))))

-- When no device answers the reset of a sequence that was set up, begins with a reset and has a callback,
-- that is, when the line, whatever it was at the first event and the 47 of the low time, is high at the six
-- events of the response window: the last of these events calls the callback and does not arm the timer
-- again. The callback clears the error, leaves the sequence done, and the temperature and what the next
-- timer is to start as they were, and asks for nothing but the hardware timer to be disarmed: neither a
-- timer nor an event is asked for.
pub missed_presence :
    (p : Bool) (s : Sensor) (first : ℕ) (low high : List ℕ) (end : ℕ)
    → s.driver.seq_state ≡ seq_state_init
    → get_or s.driver.seq_arr 0 0 ≡ op_reset
    → s.driver.callback ≢ no_callback
    → length low ≡ 47
    → All IsHigh high
    → IsHigh end
    → length high ≡ 5
    → (acts : List (List Action)) × (((run p (silent_events first low high end) s.driver).1
          ≡ acts ++ ((release ∷ make_call s.driver.callback) ∷ []))
        × Stops s.driver.callback s (run p (silent_events first low high end) s.driver).0)
missed_presence p s first low high end ready reset some el hi he eh =
    let before = (output 0 ∷ armed) ∷ [] in
    let waits = replicate 46 armed ++ ((release ∷ armed) ∷ []) in
    let window = replicate (length high) armed in
    let over = (release ∷ make_call s.driver.callback) ∷ [] in
    let ran =
      begin_run p first (low ++ (high ++ (end ∷ []))) s.driver ready
      ∙ reset_timeout p (begun s.driver) first low high end reset refl el hi he eh in
    (
      before ++ (waits ++ window),
      (
        ap (λ r. r.1) ran ∙ ap (λ l. before ++ l) (sym (append_assoc waits window over)),
        subst (Stops s.driver.callback s) (sym (ap (λ r. r.0) ran))
            (callback-Stops s.driver.callback s s.driver some),
      ),
    )
