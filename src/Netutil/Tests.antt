-- ===== src/Netutil/Tests.antt =====
-- Two pings time out.
use esp_misc.Common.{◌≡◌, refl, true, List, [], ◌∷◌, arith}
use esp_misc.Netutil.{Pings, Response, timed_out, replied, netutil_ping_ip_string}
use esp_misc.Netutil.Average.{responses, finished, five_responses}

abbrev fresh : Pings
fresh = record { state = 1; success = 9; error = 9; expected = 9; avg_time = 0 }

abbrev heard : List Response
heard = replied 30 ∷ timed_out ∷ replied 42 ∷ replied 28 ∷ timed_out ∷ []

five_responses_example : responses heard (netutil_ping_ip_string true true fresh) ≡ finished 3 100
five_responses_example = five_responses fresh heard (omega arith) (omega arith) refl (omega arith)
