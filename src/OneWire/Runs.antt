-- ===== src/OneWire/Runs.antt =====
-- Runs of events put together.
use esp_misc.Common.{ℕ, ◌≡◌, refl, ◌∙◌, ap, Bool, List, [], ◌∷◌, ◌++◌, get_or}
use esp_misc.OneWire.Driver.{seq_state_transition, Action, hw_timer_arm, Driver, inc8}
use esp_misc.OneWire.Machine.{Effect, on_event, run}

-- What an event does that only waits.
abbrev pub armed : List Action
armed = hw_timer_arm 10 ∷ []

pub run-append :
    (p : Bool) (xs ys : List ℕ) (d : Driver)
    → run p (xs ++ ys) d
      ≡ ((run p ys (run p xs d).0).0, (run p xs d).1 ++ (run p ys (run p xs d).0).1)
unfolding run
run-append p [] ys d = refl
run-append p (x ∷ xs) ys d =
    ap (λ (r : Driver × List (List Action)). (r.0, (on_event p x d).1 ∷ r.1))
      (run-append p xs ys (on_event p x d).0)

-- Two runs one after the other.
pub run_chain :
    {e f : Driver} {acts more : List (List Action)} (d : Driver) (p : Bool) (xs ys : List ℕ)
    → run p xs d ≡ (e, acts)
    → run p ys e ≡ (f, more)
    → run p (xs ++ ys) d ≡ (f, acts ++ more)
run_chain {acts} d p xs ys h k =
    run-append p xs ys d
    ∙ ap (λ (r : Driver × List (List Action)). ((run p ys r.0).0, r.1 ++ (run p ys r.0).1)) h
    ∙ ap (λ (r : Driver × List (List Action)). (r.0, acts ++ r.1)) k

pub run_one :
    {e : Driver} {acts : List Action} (d : Driver) (p : Bool) (line : ℕ)
    → on_event p line d ≡ (e, acts)
    → run p (line ∷ []) d ≡ (e, acts ∷ [])
unfolding run
run_one d p line h = ap (λ (r : Effect). (r.0, r.1 ∷ [])) h

-- The operation is over, and the next one of the sequence begins with the next event.
abbrev pub next_op : Driver → Driver
next_op d = record d {
  op_type = get_or d.seq_arr (inc8 d.seq_pos) 0;
  cur_op = 0;
  seq_state = seq_state_transition;
  seq_pos = inc8 d.seq_pos;
}
