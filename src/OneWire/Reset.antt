-- ===== src/OneWire/Reset.antt =====
-- The reset pulse, event by event.
use esp_misc.Common.{
  ℕ, zero, suc, ◌+◌, ◌-◌, ◌<◌, ◌≡◌, ◌≢◌, refl, ◌∙◌, ap, Bool, List, [], ◌∷◌, ◌++◌, arith, length,
  replicate, All,
}
use esp_misc.OneWire.Driver.{
  seq_state_started, seq_state_transition, seq_state_done, op_reset, reset_op_wait_480_low,
  reset_op_wait_60_resp, reset_op_wait_480, reset_op_done, error_reset_resp_timeout, Action, output,
  release, Driver, inc8,
}
use esp_misc.OneWire.Runs.{armed, run_chain, run_one, next_op}
use esp_misc.OneWire.Machine.{Effect, make_call, doit_reset, doit, on_event, run}

abbrev pub IsHigh : ℕ → Type 0
IsHigh line = line ≢ 0

-- In the reset machine, at operation `op` with `count` left.
abbrev pub resetting : ℕ → ℕ → Driver → Driver
resetting op count d = record d {
  op_type = op_reset;
  seq_state = seq_state_started;
  cur_op = op;
  delay_count = count;
}

module _ (p : Bool) (d : Driver) where
  low_step :
      (line k : ℕ)
      → k < 254
      → on_event p line (resetting reset_op_wait_480_low (suc (suc k)) d)
        ≡ (resetting reset_op_wait_480_low (suc k) d, armed)
  unfolding on_event doit doit_reset
  low_step line k h = ground arith

  low_end :
      (line : ℕ)
      → on_event p line (resetting reset_op_wait_480_low 1 d)
        ≡ (resetting reset_op_wait_60_resp 6 d, release ∷ armed)
  unfolding on_event doit doit_reset
  low_end line = refl

  low_run :
      (lines : List ℕ) (k : ℕ)
      → length lines ≡ suc k
      → k < 255
      → run p lines (resetting reset_op_wait_480_low (suc k) d)
        ≡ (resetting reset_op_wait_60_resp 6 d, replicate k armed ++ ((release ∷ armed) ∷ []))
  unfolding run
  low_run [] k e h = absurd (omega arith)
  low_run (line ∷ []) zero e h = ap (λ (r : Effect). (r.0, r.1 ∷ [])) (low_end line)
  low_run (line ∷ []) (suc k) e h = absurd (omega arith)
  low_run (line ∷ next ∷ lines) zero e h = absurd (omega arith)
  low_run (line ∷ next ∷ lines) (suc k) e h =
      ap (λ (r : Effect). ((run p (next ∷ lines) r.0).0, r.1 ∷ (run p (next ∷ lines) r.0).1))
        (low_step line k (omega arith))
      ∙ ap (λ (r : Driver × List (List Action)). (r.0, armed ∷ r.1))
          (low_run (next ∷ lines) k (omega arith) (omega arith))

  wait_step :
      (line k : ℕ)
      → k < 254
      → on_event p line (resetting reset_op_wait_480 (suc (suc k)) d)
        ≡ (resetting reset_op_wait_480 (suc k) d, armed)
  unfolding on_event doit doit_reset
  wait_step line k h = ground arith

  wait_end :
      (line : ℕ)
      → on_event p line (resetting reset_op_wait_480 1 d) ≡ (resetting reset_op_done 0 d, armed)
  unfolding on_event doit doit_reset
  wait_end line = refl

  wait_run :
      (lines : List ℕ) (k : ℕ)
      → length lines ≡ suc k
      → k < 255
      → run p lines (resetting reset_op_wait_480 (suc k) d)
        ≡ (resetting reset_op_done 0 d, replicate (suc k) armed)
  unfolding run
  wait_run [] k e h = absurd (omega arith)
  wait_run (line ∷ []) zero e h = ap (λ (r : Effect). (r.0, r.1 ∷ [])) (wait_end line)
  wait_run (line ∷ []) (suc k) e h = absurd (omega arith)
  wait_run (line ∷ next ∷ lines) zero e h = absurd (omega arith)
  wait_run (line ∷ next ∷ lines) (suc k) e h =
      ap (λ (r : Effect). ((run p (next ∷ lines) r.0).0, r.1 ∷ (run p (next ∷ lines) r.0).1))
        (wait_step line k (omega arith))
      ∙ ap (λ (r : Driver × List (List Action)). (r.0, armed ∷ r.1))
          (wait_run (next ∷ lines) k (omega arith) (omega arith))

  high_step :
      (line k : ℕ)
      → IsHigh line
      → k < 254
      → on_event p line (resetting reset_op_wait_60_resp (suc (suc k)) d)
        ≡ (resetting reset_op_wait_60_resp (suc k) d, armed)
  unfolding on_event doit doit_reset
  high_step line k high h = ground arith

  high_run :
      (lines : List ℕ) (k : ℕ)
      → All IsHigh lines
      → k + length lines < 255
      → run p lines (resetting reset_op_wait_60_resp (suc (length lines + k)) d)
        ≡ (resetting reset_op_wait_60_resp (suc k) d, replicate (length lines) armed)
  unfolding run
  high_run [] k high h = ap (λ n. (resetting reset_op_wait_60_resp (suc n) d, [])) (omega arith)
  high_run (line ∷ lines) k (hi, high) h =
      ap
        (λ n. (
          (run p lines (on_event p line (resetting reset_op_wait_60_resp (suc n) d)).0).0,
          (on_event p line (resetting reset_op_wait_60_resp (suc n) d)).1
              ∷ (run p lines (on_event p line (resetting reset_op_wait_60_resp (suc n) d)).0).1,
        ))
        (let e : suc (length lines) + k ≡ suc (length lines + k) = omega arith in e)
      ∙ ap (λ (r : Effect). ((run p lines r.0).0, r.1 ∷ (run p lines r.0).1))
          (high_step line (length lines + k) hi (omega arith))
      ∙ ap (λ (r : Driver × List (List Action)). (r.0, armed ∷ r.1))
          (high_run lines k high (omega arith))

  start_step :
      (line : ℕ)
      → d.op_type ≡ op_reset
      → d.seq_state ≡ seq_state_transition
      → on_event p line d ≡ (resetting reset_op_wait_480_low 47 d, output 0 ∷ armed)
  unfolding on_event doit doit_reset
  start_step line e s = ground arith

  high_window :
      (lines : List ℕ)
      → All IsHigh lines
      → length lines < 6
      → run p lines (resetting reset_op_wait_60_resp 6 d) ≡ (
        resetting reset_op_wait_60_resp (suc (5 - length lines)) d,
        replicate (length lines) armed,
      )
  high_window lines high h =
      ap (λ n. run p lines (resetting reset_op_wait_60_resp n d)) (omega arith)
      ∙ high_run lines (5 - length lines) high (omega arith)

  presence_step :
      (k : ℕ)
      → on_event p 0 (resetting reset_op_wait_60_resp (suc k) d)
        ≡ (resetting reset_op_wait_480 47 d, armed)
  unfolding on_event doit doit_reset
  presence_step k = refl

  timeout_step :
      (line : ℕ)
      → IsHigh line
      → on_event p line (resetting reset_op_wait_60_resp 1 d) ≡ (
        record (resetting reset_op_wait_60_resp 0 d) {
          error = error_reset_resp_timeout;
          seq_state = seq_state_done;
        },
        release ∷ make_call d.callback,
      )
  unfolding on_event doit doit_reset
  timeout_step line high = ground arith

  done_step :
      (line : ℕ)
      → inc8 d.seq_pos < d.seq_len
      → on_event p line (resetting reset_op_done 0 d)
        ≡ (record (next_op d) { delay_count = 0 }, armed)
  unfolding on_event doit doit_reset
  done_step line h = ground arith

  -- A reset, from its first event, holds the line low for exactly 47 further events and releases it.
  -- If the line is then high for fewer than 6 events and low at the next, 47 more events pass and the
  -- one after them goes on to the next operation of the sequence; the timer is armed every time. The
  -- levels read outside the response window do not matter.
  pub reset_presence :
      (first last : ℕ) (low high wait : List ℕ)
      → d.op_type ≡ op_reset
      → d.seq_state ≡ seq_state_transition
      → inc8 d.seq_pos < d.seq_len
      → length low ≡ 47
      → All IsHigh high
      → length high < 6
      → length wait ≡ 47
      → run p ((first ∷ []) ++ (low ++ (high ++ ((0 ∷ []) ++ (wait ++ (last ∷ [])))))) d ≡ (
        record (next_op d) { delay_count = 0 },
        ((output 0 ∷ armed) ∷ [])
            ++ ((replicate 46 armed ++ ((release ∷ armed) ∷ []))
                ++ (replicate (length high) armed
                    ++ ((armed ∷ []) ++ (replicate 47 armed ++ (armed ∷ []))))),
      )
  reset_presence first last low high wait e s fits el hi lt ew =
      run_chain _ p (first ∷ []) _ (run_one _ p first (start_step first e s)) (
        run_chain _ p low _ (low_run low 46 el (omega arith)) (
          run_chain _ p high _ (high_window high hi lt) (
            run_chain _ p (0 ∷ []) _ (run_one _ p 0 (presence_step (5 - length high))) (
              run_chain _ p wait _ (wait_run wait 46 ew (omega arith))
                (run_one _ p last (done_step last fits))))))

  -- If the line stays high through the whole response window of 6 events, the sequence ends with the
  -- timeout error: the line is released, the callback is made and the timer is not armed again.
  pub reset_timeout :
      (first : ℕ) (low high : List ℕ) (end : ℕ)
      → d.op_type ≡ op_reset
      → d.seq_state ≡ seq_state_transition
      → length low ≡ 47
      → All IsHigh high
      → IsHigh end
      → length high ≡ 5
      → run p ((first ∷ []) ++ (low ++ (high ++ (end ∷ [])))) d ≡ (
        record (resetting reset_op_wait_60_resp 0 d) {
          error = error_reset_resp_timeout;
          seq_state = seq_state_done;
        },
        ((output 0 ∷ armed) ∷ [])
            ++ ((replicate 46 armed ++ ((release ∷ armed) ∷ []))
                ++ (replicate (length high) armed ++ ((release ∷ make_call d.callback) ∷ []))),
      )
  reset_timeout first low high end e s el hi he eh =
      run_chain _ p (first ∷ []) _ (run_one _ p first (start_step first e s)) (
        run_chain _ p low _ (low_run low 46 el (omega arith))
          (run_chain _ p high _ (high_window high hi (omega arith)) (run_one _ p end last_step)))
    where
      last_step : on_event p end (resetting reset_op_wait_60_resp (suc (5 - length high)) d) ≡ (
        record (resetting reset_op_wait_60_resp 0 d) {
          error = error_reset_resp_timeout;
          seq_state = seq_state_done;
        },
        release ∷ make_call d.callback,
      )
      last_step =
          ap (λ n. on_event p end (resetting reset_op_wait_60_resp n d)) (omega arith)
          ∙ timeout_step end he
