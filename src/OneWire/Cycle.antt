-- ===== src/OneWire/Cycle.antt =====
-- How one sequence leads to the next: the callback of each, and the timer behind it.
use esp_misc.Common.{
  ℕ, ◌≡◌, ◌≢◌, refl, ap, true, List, [], ◌∷◌, ◌++◌, length, All, ◌==◌, Bool-cases, inl, inr, take,
  get_or,
}
use esp_misc.Crc.{onewire_crc8}
use esp_misc.OneWire.Driver.{
  seq_state_init, op_reset, op_write, op_end, Callback, no_callback, read_uuid_done, conv_t_done,
  read_temp_done, Driver,
}
use esp_misc.OneWire.Sensor.{
  Sensor, Request, Outcome, hw_timer_disarm, hw_timer_arm, os_timer_disarm, os_timer_arm,
  post_one_wire, publish, decode, reading_of, init_seq, seq_timer_cb, read_temp_done_cb,
  conv_t_done_cb, read_uuid_done_cb, call_back,
}
use esp_misc.OneWire.Whole.{IsReading}

-- The callback of the sequence that follows.
abbrev pub next_callback : Callback → Callback
next_callback no_callback = no_callback
next_callback read_uuid_done = conv_t_done
next_callback conv_t_done = read_temp_done
next_callback read_temp_done = conv_t_done

abbrev pub converting : List ℕ
converting = op_reset ∷ op_write ∷ op_write ∷ op_end ∷ []

-- A sequence that ends with this callback is set up.
abbrev pub IsSetUp : Callback → Driver → Type 0
IsSetUp conv_t_done d =
    (d.seq_state ≡ seq_state_init)
    × ((d.error ≡ 0)
        × ((d.callback ≡ conv_t_done)
            × ((d.seq_arr ≡ converting) × (d.seq_len ≡ length converting))))
IsSetUp cb d = (d.error ≡ 0) × ((d.callback ≡ cb) × IsReading d)

-- After the next conversion the hardware timer is armed, too.
abbrev pub extra : Callback → List Request
extra read_temp_done = hw_timer_arm 10 ∷ []
extra cb = []

abbrev pub Continues : Callback → Sensor → Outcome → Type 0
Continues cb before (after, asked) =
    IsSetUp (next_callback cb) after.driver
    × ((after.latest_temp ≡ before.latest_temp) × (asked ≡ post_one_wire ∷ extra cb))

uuid_leads :
    (s : Sensor)
    → (s.driver.error == 0) ≡ true
    → Continues read_uuid_done (read_uuid_done_cb s).0 (seq_timer_cb (read_uuid_done_cb s).0)
unfolding read_uuid_done_cb seq_timer_cb init_seq
uuid_leads s e = rw e ((refl, (refl, (refl, (refl, refl)))), (refl, refl))

conv_leads :
    (s : Sensor)
    → (s.driver.error == 0) ≡ true
    → Continues conv_t_done (conv_t_done_cb s).0 (seq_timer_cb (conv_t_done_cb s).0)
unfolding conv_t_done_cb seq_timer_cb init_seq
conv_leads s e = rw e ((refl, (refl, (refl, (refl, (refl, refl))))), (refl, refl))

read_leads :
    (s : Sensor)
    → (s.driver.error == 0) ≡ true
    → Continues read_temp_done (read_temp_done_cb s).0 (seq_timer_cb (read_temp_done_cb s).0)
unfolding read_temp_done_cb seq_timer_cb init_seq
read_leads s e = rw e ((refl, (refl, (refl, (refl, refl)))), (refl, refl))

-- The pause behind a sequence, in milliseconds.
abbrev pub pause : Callback → ℕ
pause no_callback = 0
pause read_uuid_done = 15
pause conv_t_done = 750
pause read_temp_done = 2431

-- A request that neither arms a timer nor posts an event.
abbrev pub IsQuiet : Request → Type 0
IsQuiet hw_timer_disarm = Unit
IsQuiet (hw_timer_arm us) = ⊥
IsQuiet os_timer_disarm = Unit
IsQuiet (os_timer_arm ms) = ⊥
IsQuiet post_one_wire = ⊥
IsQuiet (publish temp) = Unit

-- The timer is armed for the pause, last, and nothing else is started.
abbrev pub Pauses : Callback → List Request → Type 0
Pauses cb asked =
    (quiet : List Request) × ((asked ≡ quiet ++ (os_timer_arm (pause cb) ∷ [])) × All IsQuiet quiet)

uuid-Pauses :
    (s : Sensor) → (s.driver.error == 0) ≡ true → Pauses read_uuid_done (read_uuid_done_cb s).1
unfolding read_uuid_done_cb
uuid-Pauses s e = (os_timer_disarm ∷ [], (rw e, (tt, tt)))

conv-Pauses : (s : Sensor) → (s.driver.error == 0) ≡ true → Pauses conv_t_done (conv_t_done_cb s).1
unfolding conv_t_done_cb
conv-Pauses s e = ([], (rw e, tt))

read-Pauses :
    (s : Sensor) → (s.driver.error == 0) ≡ true → Pauses read_temp_done (read_temp_done_cb s).1
unfolding read_temp_done_cb
read-Pauses s e =
    let spad = s.driver.spad_buf in
    elim (Bool-cases (onewire_crc8 (take 8 spad) == get_or spad 8 0)) [
      | inl ok ↦ (
        hw_timer_disarm ∷ publish (decode (reading_of spad)) ∷ os_timer_disarm ∷ [],
        (rw (e, ok), (tt, (tt, (tt, tt)))),
      )
      | inr bad ↦ (hw_timer_disarm ∷ os_timer_disarm ∷ [], (rw (e, bad), (tt, (tt, tt))))
    ]

-- When a sequence ended without an error, its callback arms the timer for 15 ms after the device's identity
-- was read, for 750 ms after a conversion and for 2431 ms after a read, and neither arms the hardware
-- timer nor posts an event; the callback of that timer then sets up the next sequence and posts its first
-- event: a conversion after the device's identity was read, a read after a conversion, and a conversion
-- after a read, where it arms the hardware timer, too. The timer leaves the temperature as the callback
-- of the sequence left it.
pub sequence-Continues :
    (s : Sensor) (cb : Callback)
    → cb ≢ no_callback
    → s.driver.error ≡ 0
    → Pauses cb (call_back cb s).1
      × Continues cb (call_back cb s).0 (seq_timer_cb (call_back cb s).0)
unfolding call_back
sequence-Continues s no_callback some e = absurd (some refl)
sequence-Continues s read_uuid_done some e =
    let ok : (s.driver.error == 0) ≡ true = ap (λ n. n == 0) e in
    (uuid-Pauses s ok, uuid_leads s ok)
sequence-Continues s conv_t_done some e =
    let ok : (s.driver.error == 0) ≡ true = ap (λ n. n == 0) e in
    (conv-Pauses s ok, conv_leads s ok)
sequence-Continues s read_temp_done some e =
    let ok : (s.driver.error == 0) ≡ true = ap (λ n. n == 0) e in
    (read-Pauses s ok, read_leads s ok)
