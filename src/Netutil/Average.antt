-- ===== src/Netutil/Average.antt =====
-- netutil.c: the five responses to a ping.
use esp_misc.Common.{
  ℕ, ◌+◌, ◌-◌, ◌/◌, ◌^◌, ◌<◌, ◌≡◌, ◌≢◌, refl, ◌∙◌, ap, true, false, List, [], ◌∷◌, length, ◌==◌,
  ==-false, if◌then◌else◌, arith,
}
use mathlib.Core.Path.{ap₂}
use esp_misc.Netutil.{
  ping_started, ping_done, Pings, Response, timed_out, replied, end_test, netutil_ping_cb,
  netutil_ping_ip_string,
}

abbrev pub responses : List Response → Pings → Pings
responses [] p = p
responses (r ∷ rs) p = responses rs (netutil_ping_cb r p)

abbrev pub replies : List Response → ℕ
replies [] = 0
replies (timed_out ∷ rs) = replies rs
replies (replied time ∷ rs) = replies rs + 1

abbrev pub total_time : List Response → ℕ
total_time [] = 0
total_time (timed_out ∷ rs) = total_time rs
total_time (replied time ∷ rs) = time + total_time rs

-- What was counted so far.
abbrev at : (errors successes time : ℕ) → Pings
at errors successes time = record {
  state = ping_started;
  success = successes;
  error = errors;
  expected = 5;
  avg_time = time;
}

abbrev pub finished : (successes time : ℕ) → Pings
finished successes time = record {
  state = ping_done;
  success = successes;
  error = 5 - successes;
  expected = 5;
  avg_time = time / 5;
}

error_step : (e s t : ℕ) → e + s < 4 → netutil_ping_cb timed_out (at e s t) ≡ at (e + 1) s t
unfolding netutil_ping_cb end_test
error_step e s t few = ground (arith, few)

error_end : (e s t : ℕ) → e + s ≡ 4 → netutil_ping_cb timed_out (at e s t) ≡ finished s t
unfolding netutil_ping_cb end_test
error_end e s t last = ground (arith, last)

reply_step :
    (e s t time : ℕ)
    → e + s < 4
    → t + time < 2 ^ 32
    → netutil_ping_cb (replied time) (at e s t) ≡ at e (s + 1) (t + time)
unfolding netutil_ping_cb end_test
reply_step e s t time few fits = ground (arith, few, fits)

reply_end :
    (e s t time : ℕ)
    → e + s ≡ 4
    → t + time < 2 ^ 32
    → netutil_ping_cb (replied time) (at e s t) ≡ finished (s + 1) (t + time)
unfolding netutil_ping_cb end_test
reply_end e s t time last fits = ground (arith, last, fits)

-- The responses that are left.
rest_counted :
    (r : Response) (rs : List Response) (e s t : ℕ)
    → e + s + length rs ≡ 4
    → t + total_time (r ∷ rs) < 2 ^ 32
    → responses (r ∷ rs) (at e s t) ≡ finished (s + replies (r ∷ rs)) (t + total_time (r ∷ rs))
rest_counted timed_out [] e s t count fits =
    error_end e s t (omega (arith, count))
    ∙ ap₂ finished (let k : s ≡ s + 0 = omega arith in k) (let k : t ≡ t + 0 = omega arith in k)
rest_counted (replied time) [] e s t count fits =
    reply_end e s t time (omega (arith, count)) (omega (arith, fits))
    ∙ ap₂ finished refl (let k : t + time ≡ t + (time + 0) = omega arith in k)
rest_counted timed_out (r ∷ rs) e s t count fits =
    ap (responses (r ∷ rs)) (error_step e s t (omega (arith, count)))
    ∙ rest_counted r rs (e + 1) s t (omega (arith, count)) fits
rest_counted (replied time) (r ∷ rs) e s t count fits =
    ap (responses (r ∷ rs)) (reply_step e s t time (omega (arith, count)) (omega (arith, fits)))
    ∙ rest_counted r rs e (s + 1) (t + time) (omega (arith, count)) (omega (arith, fits))
    ∙ ap₂ finished
        (let k : s + 1 + replies (r ∷ rs) ≡ s + (replies (r ∷ rs) + 1) = omega arith in k)
        (let k : t + time + total_time (r ∷ rs) ≡ t + (time + total_time (r ∷ rs)) = omega arith in
          k)

-- Pings to a valid address that are started, when none were running or done, and whose times do not
-- overflow together with the time that the record held before: after the fifth response the record is
-- done, and holds the numbers of the replies and of the timeouts and the sum of the times, that of before
-- included, divided by five.
pub five_responses :
    (p : Pings) (rs : List Response)
    → p.state ≢ ping_started
    → p.state ≢ ping_done
    → length rs ≡ 5
    → p.avg_time + total_time rs < 2 ^ 32
    → responses rs (netutil_ping_ip_string true true p)
      ≡ finished (replies rs) (p.avg_time + total_time rs)
unfolding netutil_ping_ip_string
five_responses p [] idle not_done count fits = absurd (omega (arith, count))
five_responses p (r ∷ rs) idle not_done count fits =
    let a : (p.state == ping_started) ≡ false = ==-false p.state ping_started idle in
    let b : (p.state == ping_done) ≡ false = ==-false p.state ping_done not_done in
    rw (a, b, if◌then◌else◌) (rest_counted r rs 0 0 p.avg_time (omega (arith, count)) fits)
    ∙ ap (λ k. finished k (p.avg_time + total_time (r ∷ rs)))
        (let k : 0 + replies (r ∷ rs) ≡ replies (r ∷ rs) = omega arith in k)
