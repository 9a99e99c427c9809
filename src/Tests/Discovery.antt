-- ===== src/Tests/Discovery.antt =====
-- A discovery with two replies, one of them no JSON, and the start of the MCP server over standard
-- input.
use cheshmhayash.Common.{
  ℕ, ◌≤◌, ◌≡◌, refl, pos, true, String, [], ◌∷◌, Option, none, some, arith, eqb, leb, ◌==◌,
  if◌then◌else◌,
}
use cheshmhayash.Natsx
use cheshmhayash.Natsx.{Conn, discover, jsm_overview, keep_valid}
use cheshmhayash.Natsx.Discovery.{Round, Inbox, discover_within}
use cheshmhayash.Natsx.Discovery.Rounds.{EndsAfter, Timely, Advances}
use cheshmhayash.Natsx.Discovery.Laws.{over_inbox, discover_within-ends}

abbrev answers : ℕ → Option String
answers i = if eqb i 0 then some "{}" else if eqb i 1 then some "oops" else none

-- The messages come after nine nanoseconds, if there is so much time.
abbrev round : ℕ → Round
round i = record {
  lag = 1;
  next_msg = λ timeout.
      if leb 9 timeout
      then record { took = 9; answer = answers i }
      else record { took = timeout; answer = none };
}

round-Timely : Timely round
round-Timely i timeout = ground arith

round-Advances : Advances round
round-Advances i timeout = ground arith

abbrev inbox : Inbox
inbox = record { subscribe = none; publish = none; flush = none; round = round }

abbrev conn : Conn
conn = record {
  request = λ call. Natsx.ok "{}";
  collect = λ call. Natsx.ok [];
  valid = λ body. body == "{}";
}

within_test :
    discover_within conn.valid inbox 100 (pos 25) 26 jsm_overview
    ≡ some (record { reply = Natsx.ok ("{}" ∷ []); unsubscribed = 1; over = some 125 })
unfolding discover_within
within_test = refl

-- The window closes before the second message.
closed_test :
    discover_within (λ body. true) inbox 100 (pos 11) 12 jsm_overview
    ≡ some (record { reply = Natsx.ok ("{}" ∷ []); unsubscribed = 1; over = some 111 })
unfolding discover_within
closed_test = refl

discover_within-ends_example :
    (n : ℕ) × (over : ℕ) × (n ≤ 25)
    × EndsAfter round 125 0 100 over n
    × (discover_within conn.valid inbox 100 (pos 25) 26 jsm_overview
        ≡ some (record {
          reply = discover (over_inbox conn inbox 125 100 n) jsm_overview;
          unsubscribed = 1;
          over = some over;
        }))
discover_within-ends_example =
    discover_within-ends conn inbox 100 25 (pos 25) jsm_overview round-Advances round-Timely
      (omega arith)
