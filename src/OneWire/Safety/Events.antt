-- ===== src/OneWire/Safety/Events.antt =====
-- onewire_nb.c, `OW_doit`: its second switch, and the event task that calls it.
use mathlib.Core.Path.{subst}
use esp_misc.Common.{
  ℕ, ◌<◌, ◌≡◌, ◌⊎◌, inl, inr, refl, sym, ◌∙◌, ap, Bool, false, List, [], ◌∷◌, Bool-cases, ==-false,
  leb, ◌==◌, if◌then◌else◌, get_or, length, arith,
}
use esp_misc.OneWire.Driver.{
  seq_state_init, seq_state_started, seq_state_transition, seq_state_done, op_end, Driver,
}
use esp_misc.OneWire.Machine.{run_op, next_state, doit, on_event, run}
use esp_misc.OneWire.Safety.{IsTable, IsSafe, same-IsTable, IsTable-IsSame}
use esp_misc.OneWire.Safety.Switch.{Between, run_op-Leaves}

next_transition :
    (e : Driver)
    → e.seq_state ≡ seq_state_transition
    → (next_state e).0 ≡ (
        if leb e.seq_len e.seq_pos
        then record e { op_type = op_end; seq_state = seq_state_done }
        else record e { op_type = get_or e.seq_arr e.seq_pos 0; cur_op = 0 })
next_transition e state = ground arith

next_started : (e : Driver) → e.seq_state ≡ seq_state_started → (next_state e).0 ≡ e
next_started e state = ground arith

next_done : (e : Driver) → e.seq_state ≡ seq_state_done → (next_state e).0 ≡ e
next_done e state = ground arith

abbrev finished : Driver → Driver
finished e = record e { op_type = op_end; seq_state = seq_state_done }

finished-IsSafe : (e : Driver) → IsTable e → IsSafe (finished e)
finished-IsSafe e t = record {
  table = same-IsTable e (finished e) t refl refl refl refl;
  moving = λ z. omega (arith, z);
  running = λ z. omega (arith, z);
  over = λ z. ((λ y. omega (arith, y)), inl refl);
  known = omega arith;
}

abbrev moved : Driver → Driver
moved e = record e { op_type = get_or e.seq_arr e.seq_pos 0; cur_op = 0 }

moved-IsSafe :
    (e : Driver)
    → IsTable e
    → e.seq_pos < e.seq_len
    → e.seq_state ≡ seq_state_transition
    → IsSafe (moved e)
moved-IsSafe e t at state = record {
  table = same-IsTable e (moved e) t refl refl refl refl;
  moving = λ z. (at, refl);
  running = λ z. omega (arith, z, state);
  over = λ z. omega (arith, z, state);
  known = omega (arith, state);
}

next_spad : (e : Driver) → (next_state e).0.spad_buf ≡ e.spad_buf
next_spad e = ground arith

next_state-IsSafe : (e : Driver) → IsTable e → Between e → IsSafe (next_state e).0
next_state-IsSafe e t (inl (state, at)) =
    subst IsSafe (sym (next_transition e state)) (elim (Bool-cases (leb e.seq_len e.seq_pos)) [
      | inl f ↦ subst IsSafe (sym (rw (f, if◌then◌else◌))) (finished-IsSafe e t)
      | inr f ↦
          subst IsSafe (sym (rw (f, if◌then◌else◌)))
            (moved-IsSafe e t (ground (arith, f, at)) state)
    ])
next_state-IsSafe e t (inr (inl (state, (current, fits)))) =
    subst IsSafe (sym (next_started e state)) (record {
      table = t;
      moving = λ z. omega (arith, z, state);
      running = λ z. (current, fits);
      over = λ z. omega (arith, z, state);
      known = omega (arith, state);
    })
next_state-IsSafe e t (inr (inr (state, over))) = subst IsSafe (sym (next_done e state)) (record {
  table = t;
  moving = λ z. omega (arith, z, state);
  running = λ z. omega (arith, z, state);
  over = λ z. over;
  known = omega (arith, state);
})

-- The operation of a driver that has begun, and the choice of its next state.
doit-IsSafe :
    (p : Bool) (line : ℕ) (d : Driver)
    → IsSafe d
    → IsSafe (doit p line d).0 × (length (doit p line d).0.spad_buf ≡ length d.spad_buf)
unfolding doit
doit-IsSafe p line d s =
    let (same, between) = run_op-Leaves p line d s (omega (arith, s.known)) in
    (
      next_state-IsSafe (run_op p line d).0 (IsTable-IsSame d (run_op p line d).0 s.table same)
          between,
      ap length (next_spad (run_op p line d).0) ∙ same.same_spad,
    )

-- A sequence that was set up and not begun, or one under way.
abbrev pub IsReady : Driver → Type 0
IsReady d = ((d.seq_state ≡ seq_state_init) × IsTable d) ⊎ IsSafe d

abbrev begin : Driver → Driver
begin d = record d {
  seq_state = seq_state_transition;
  op_type = get_or d.seq_arr 0 0;
  cur_op = 0;
  seq_pos = 0;
}

begin-IsSafe : (d : Driver) → IsTable d → IsSafe (begin d)
begin-IsSafe d t = record {
  table = same-IsTable d (begin d) t refl refl refl refl;
  moving = λ z. (t.some_ops, refl);
  running = λ z. omega (arith, z);
  over = λ z. omega (arith, z);
  known = omega arith;
}

event_begins :
    (p : Bool) (line : ℕ) (d : Driver)
    → d.seq_state ≡ seq_state_init
    → on_event p line d ≡ doit p line (begin d)
unfolding on_event
event_begins p line d e = rw (e, if◌then◌else◌)

event_goes_on :
    (p : Bool) (line : ℕ) (d : Driver)
    → (d.seq_state == seq_state_init) ≡ false
    → on_event p line d ≡ doit p line d
unfolding on_event
event_goes_on p line d e = rw (e, if◌then◌else◌)

on_event-IsSafe :
    (p : Bool) (line : ℕ) (d : Driver)
    → IsReady d
    → IsSafe (on_event p line d).0 × (length (on_event p line d).0.spad_buf ≡ length d.spad_buf)
on_event-IsSafe p line d (inl (e, t)) =
    subst (λ r. IsSafe r.0 × (length r.0.spad_buf ≡ length d.spad_buf))
      (sym (event_begins p line d e)) (doit-IsSafe p line (begin d) (begin-IsSafe d t))
on_event-IsSafe p line d (inr s) =
    subst (λ r. IsSafe r.0 × (length r.0.spad_buf ≡ length d.spad_buf))
      (sym (
        event_goes_on p line d
          (==-false d.seq_state seq_state_init (λ z. omega (arith, z, s.known)))))
      (doit-IsSafe p line d s)

pub run-IsReady :
    (p : Bool) (lines : List ℕ) (d : Driver)
    → IsReady d
    → IsReady (run p lines d).0 × (length (run p lines d).0.spad_buf ≡ length d.spad_buf)
unfolding run
run-IsReady p [] d r = (r, refl)
run-IsReady p (line ∷ lines) d r =
    let (safe, size) = on_event-IsSafe p line d r in
    let (ready, sizes) = run-IsReady p lines (on_event p line d).0 (inr safe) in
    (ready, sizes ∙ size)
