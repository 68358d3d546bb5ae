-- ===== src/Netutil.antt =====
-- app_common/util/netutil.c with netutil.h: pings, five at a time. The parsing of an address and `ping_start` of
-- the vendor's stack are arguments: whether the address is valid, and whether the pings were started.
pub mod Average
mod Tests
use esp_misc.Common.{
  ℕ, ◌+◌, ◌*◌, ◌/◌, ◌%◌, ◌^◌, Bool, true, false, ◌||◌, List, [], ◌∷◌, ◌==◌, if◌then◌else◌,
}

-- `ping_state_t`
abbrev pub ping_ready : ℕ
ping_ready = 1

abbrev pub ping_started : ℕ
ping_started = 2

abbrev pub ping_done : ℕ
ping_done = 3

-- `PING_RESP_T`
pub record Pings : Type 0 where
  pub state : ℕ
  pub success : ℕ
  pub error : ℕ
  pub expected : ℕ
  pub avg_time : ℕ

-- What the stack hands to the callback: a timeout (`ping_err` is -1), or a reply with its time.
pub data Response : Type 0 where
  timed_out : Response
  replied : (resp_time : ℕ) → Response

abbrev pub counted : Response → Pings → Pings
counted timed_out p = record p { error = (p.error + 1) % 2 ^ 8 }
counted (replied time) p = record p {
  success = (p.success + 1) % 2 ^ 8;
  avg_time = (p.avg_time + time) % 2 ^ 32;
}

-- "Is it time to end?" The sum of the two counts is not cut to 8 bits.
unfoldable pub end_test : Pings → Pings
end_test p =
    if p.success + p.error == p.expected
    then record p { state = ping_done; avg_time = p.avg_time / p.expected }
    else p

-- `netutil_ping_cb`
unfoldable pub netutil_ping_cb : Response → Pings → Pings
netutil_ping_cb r p = end_test (counted r p)

-- `netutil_ping_ip_string`
unfoldable pub netutil_ping_ip_string : (valid starts : Bool) → Pings → Pings
netutil_ping_ip_string valid starts p =
    if (p.state == ping_started) || (p.state == ping_done)
    then p
    else if valid
    then (let cleared = record p { success = 0; error = 0; expected = 0 } in
        if starts
        then record cleared { state = ping_started; expected = 5 }
        else record cleared { state = ping_ready })
    else p
