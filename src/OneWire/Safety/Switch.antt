-- ===== src/OneWire/Safety/Switch.antt =====
-- onewire_nb.c, `OW_doit`: its first switch runs an operation for one event.
use mathlib.Core.Path.{subst}
use esp_misc.Common.{
  ℕ, ◌<◌, ◌≤◌, ◌≡◌, ◌≢◌, ◌⊎◌, inl, inr, refl, sym, ◌∙◌, ap, Bool, true, false, Bool-cases, ==-false,
  eq_of_==, ◌==◌, get_or, arith,
}
use esp_misc.OneWire.Driver.{
  seq_state_init, seq_state_started, seq_state_transition, seq_state_done, op_reset, op_read,
  op_write, op_end, read_op_init, Driver,
}
use esp_misc.OneWire.Machine.{doit_reset, doit_read, doit_write, run_op}
use esp_misc.OneWire.Safety.{
  Fits, IsSame, Ended, reset-IsSame, reset-Ended, write-IsSame, write-Ended, read-IsSame,
  read-Ended, IsTable, IsCurrent, IsOver, IsSafe, same-IsTable,
}

-- After the operation's event, before the next state is chosen.
abbrev pub Between : Driver → Type 0
Between e =
    ((e.seq_state ≡ seq_state_transition) × (e.seq_pos ≤ e.seq_len))
    ⊎ (((e.seq_state ≡ seq_state_started) × (IsCurrent e × Fits e))
        ⊎ ((e.seq_state ≡ seq_state_done) × IsOver e))

Ended-Between :
    (d e : Driver)
    → IsTable d
    → IsSame d e
    → d.seq_state ≡ seq_state_started
    → IsCurrent d
    → Ended d e
    → Between e
Ended-Between d e t s started (lt, current) (inl (state, (at, fits))) = inr (
    inl (
      state ∙ started,
      (
        (
          omega (arith, s.same_len, at, lt),
          s.same_type
              ∙ current
              ∙ ap (λ i. get_or d.seq_arr i 0) (sym at)
              ∙ ap (λ xs. get_or xs e.seq_pos 0) (sym s.same_seq),
        ),
        fits,
      ),
    ))
Ended-Between d e t s started (lt, current) (inr (inl (state, at))) =
    inl (state, omega (arith, s.same_len, at, lt, t.few_ops))
Ended-Between d e t s started (lt, current) (inr (inr (state, (at, other)))) =
    inr (inr (state, (other, inr (omega (arith, s.same_len, at, lt)))))

done-IsSame : (d : Driver) → IsSame d (record d { seq_state = seq_state_done })
done-IsSame d = record {
  same_seq = refl;
  same_arg = refl;
  same_len = refl;
  same_spad = refl;
  same_type = refl;
}

-- What the first switch leaves.
abbrev pub Leaves : Driver → Driver → Type 0
Leaves d e = IsSame d e × Between e

module _ (p : Bool) (line : ℕ) (d : Driver)
    (state : (d.seq_state == seq_state_transition) ≡ false) where
  run_read : (d.op_type == op_read) ≡ true → (run_op p line d).0 ≡ (doit_read line d).0
  run_read e = rw (e, state)

  run_write :
      (d.op_type == op_read) ≡ false
      → (d.op_type == op_write) ≡ true
      → (run_op p line d).0 ≡ (doit_write p d).0
  run_write e f = rw (e, f, state)

  run_reset :
      (d.op_type == op_read) ≡ false
      → (d.op_type == op_write) ≡ false
      → (d.op_type == op_reset) ≡ true
      → (run_op p line d).0 ≡ (doit_reset line d).0
  run_reset e f g = rw (e, f, g, state)

  run_other :
      (d.op_type == op_read) ≡ false
      → (d.op_type == op_write) ≡ false
      → (d.op_type == op_reset) ≡ false
      → (run_op p line d).0 ≡ record d { seq_state = seq_state_done }
  run_other e f g = rw (e, f, g)

  run_started :
      IsTable d
      → d.seq_state ≡ seq_state_started
      → IsCurrent d
      → (d.cur_op ≢ read_op_init → Fits d)
      → Leaves d (run_op p line d).0
  run_started t started current fits = elim (Bool-cases (d.op_type == op_read)) [
    | inl e ↦
        (let reading : d.op_type ≡ op_read = eq_of_== d.op_type op_read e in
          subst (Leaves d) (sym (run_read e)) (
            read-IsSame line d,
            Ended-Between d (doit_read line d).0 t (read-IsSame line d) started current (
                read-Ended line d reading t.small fits
                  (λ z. t.reads d.seq_pos current.0 (sym current.1 ∙ reading))),
          ))
    | inr e ↦ elim (Bool-cases (d.op_type == op_write)) [
      | inl f ↦ subst (Leaves d) (sym (run_write e f)) (
        write-IsSame p d,
        Ended-Between d (doit_write p d).0 t (write-IsSame p d) started current
            (write-Ended p d (eq_of_== d.op_type op_write f)),
      )
      | inr f ↦ elim (Bool-cases (d.op_type == op_reset)) [
        | inl g ↦ subst (Leaves d) (sym (run_reset e f g)) (
          reset-IsSame line d,
          Ended-Between d (doit_reset line d).0 t (reset-IsSame line d) started current
              (reset-Ended line d (eq_of_== d.op_type op_reset g)),
        )
        | inr g ↦ subst (Leaves d) (sym (run_other e f g)) (
          done-IsSame d,
          inr (
              inr
                (refl, ((let other : d.op_type ≢ op_read = ground arith in other), inr current.0))),
        )
      ]
    ]
  ]

over_pos : (d : Driver) → IsOver d → d.op_type ≢ op_end → d.seq_pos < d.seq_len
over_pos d (other, inl z) going = elim (going z) [ ]
over_pos d (other, inr at) going = at

Over-Between :
    (d e : Driver)
    → IsTable d
    → IsSame d e
    → d.seq_state ≡ seq_state_done
    → IsOver d
    → d.op_type ≢ op_end
    → Ended d e
    → Between e
Over-Between d e t s state (other, at) going (inl (same, (pos_same, fits))) = inr (
    inr (
      same ∙ state,
      (
        (λ z. other (sym s.same_type ∙ z)),
        inr (omega (arith, s.same_len, pos_same, over_pos d (other, at) going)),
      ),
    ))
Over-Between d e t s state (other, at) going (inr (inl (moved, next))) =
    inl (moved, omega (arith, s.same_len, next, over_pos d (other, at) going, t.few_ops))
Over-Between d e t s state (other, at) going (inr (inr (done, (pos_same, unread)))) =
    inr (
      inr (done, (unread, inr (omega (arith, s.same_len, pos_same, over_pos d (other, at) going)))))

-- In the state that has finished, only a reset, a write or nothing may go on.
run_over :
    (p : Bool) (line : ℕ) (d : Driver)
    → d.seq_state ≡ seq_state_done
    → IsOver d
    → IsTable d
    → Leaves d (run_op p line d).0
run_over p line d state (other, at) t =
    let idle : (d.seq_state == seq_state_transition) ≡ false =
      ==-false d.seq_state seq_state_transition (λ z. omega (arith, z, state)) in
    let unread : (d.op_type == op_read) ≡ false = ==-false d.op_type op_read other in
    elim (Bool-cases (d.op_type == op_write)) [
      | inl f ↦ subst (Leaves d) (sym (run_write p line d idle unread f)) (
        write-IsSame p d,
        Over-Between d (doit_write p d).0 t (write-IsSame p d) state (other, at)
            (omega (arith, eq_of_== d.op_type op_write f))
            (write-Ended p d (eq_of_== d.op_type op_write f)),
      )
      | inr f ↦ elim (Bool-cases (d.op_type == op_reset)) [
        | inl g ↦ subst (Leaves d) (sym (run_reset p line d idle unread f g)) (
          reset-IsSame line d,
          Over-Between d (doit_reset line d).0 t (reset-IsSame line d) state (other, at)
              (omega (arith, eq_of_== d.op_type op_reset g))
              (reset-Ended line d (eq_of_== d.op_type op_reset g)),
        )
        | inr g ↦
            subst (Leaves d) (sym (run_other p line d idle unread f g))
              (done-IsSame d, inr (inr (refl, (other, at))))
      ]
    ]

abbrev begun : Driver → Driver
begun d = record d { seq_state = seq_state_started; cur_op = read_op_init }

begun_op :
    (p : Bool) (line : ℕ) (d : Driver)
    → (d.seq_state == seq_state_transition) ≡ true
    → ((run_op p line d).0 ≡ (run_op p line (begun d)).0)
      ⊎ (((d.op_type == op_read) ≡ false)
          × ((run_op p line d).0 ≡ record d { seq_state = seq_state_done }))
begun_op p line d e = elim (Bool-cases (d.op_type == op_read)) [
  | inl f ↦ inl (rw (e, f))
  | inr f ↦ elim (Bool-cases (d.op_type == op_write)) [
    | inl g ↦ inl (rw (e, f, g))
    | inr g ↦ elim (Bool-cases (d.op_type == op_reset)) [
      | inl h ↦ inl (rw (e, f, g, h))
      | inr h ↦ inr (f, rw (f, g, h))
    ]
  ]
]

Leaves-begun : (d e : Driver) → Leaves (begun d) e → Leaves d e
Leaves-begun d e (s, b) = (
  record {
    same_seq = s.same_seq;
    same_arg = s.same_arg;
    same_len = s.same_len;
    same_spad = s.same_spad;
    same_type = s.same_type;
  },
  b,
)

pub run_op-Leaves :
    (p : Bool) (line : ℕ) (d : Driver)
    → IsSafe d
    → d.seq_state ≢ seq_state_init
    → Leaves d (run_op p line d).0
run_op-Leaves p line d s going = elim (Bool-cases (d.seq_state == seq_state_transition)) [
  | inl e ↦
      (let current = s.moving (eq_of_== d.seq_state seq_state_transition e) in
        elim (begun_op p line d e) [
          | inl same ↦ subst (Leaves d) (sym same) (
              Leaves-begun d (run_op p line (begun d)).0 (
                run_started p line (begun d) refl
                  (same-IsTable d (begun d) s.table refl refl refl refl) refl current
                  (λ other. elim (other refl) [ ])))
          | inr (f, same) ↦ subst (Leaves d) (sym same) (
            done-IsSame d,
            inr (
                inr (
                  refl,
                  ((let other : d.op_type ≢ op_read = ground arith in other), inr current.0),
                )),
          )
        ])
  | inr e ↦ elim (Bool-cases (d.seq_state == seq_state_started)) [
    | inl f ↦
        (let (current, fits) = s.running (eq_of_== d.seq_state seq_state_started f) in
          run_started p line d e s.table (eq_of_== d.seq_state seq_state_started f) current
            (λ z. fits))
    | inr f ↦ run_over p line d (ground (arith, s.known)) (s.over (ground (arith, s.known))) s.table
  ]
]
