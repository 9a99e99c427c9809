-- ===== src/Natsx/Discovery.antt =====
-- internal/natsx/cluster.go: `discover` with its clock. The record `Inbox` is what the NATS client and
-- the clock do during one discovery; times are nanoseconds.
pub mod Rounds
pub mod Laws
use cheshmhayash.Common.{
  ℕ, zero, suc, ◌+◌, ◌-◌, ℤ, pos, negsuc, Bool, String, List, [], ◌∷◌, ◌++◌, Option, none, some,
  leb, if◌then◌else◌,
}
use cheshmhayash.Common.Text.{◌<>◌}
use mathlib.Core.Option
use cheshmhayash.Http.{Call}
use cheshmhayash.Natsx.{Fault, Reply, err, ok, wrap}

-- What NextMsg takes and gives. An error of it, a timeout or the end of the subscription, is none.
pub record Wait : Type 0 where
  pub took : ℕ
  pub answer : Option String

-- A round of the loop: the time until `time.Until` is read, and NextMsg by its timeout.
pub record Round : Type 0 where
  pub lag : ℕ
  pub next_msg : ℕ → Wait

-- The errors of SubscribeSync, PublishRequest and Flush, and the rounds that follow.
pub record Inbox : Type 0 where
  pub subscribe : Option Fault
  pub publish : Option Fault
  pub flush : Option Fault
  pub round : ℕ → Round

-- The loop from round `i` at the time `now`, with the replies so far; none means that the fuel ran
-- out. It gives the replies, and the time at which it ends.
unfoldable pub wait_replies :
    (String → Bool) → (ℕ → Round) → ℕ → ℕ → ℕ → ℕ → List String → Option (List String × ℕ)
wait_replies valid round deadline zero i now replies = none
wait_replies valid round deadline (suc fuel) i now replies =
    let read = now + (round i).lag in
    let got = (round i).next_msg (deadline - read) in
    let next = λ (kept : List String).
      wait_replies valid round deadline fuel (suc i) (read + got.took) kept in
    if leb deadline read then some (replies, read) else elim got.answer [
      | none ↦ some (replies, read + got.took)
      | some m ↦ next (if valid m then replies ++ (m ∷ []) else replies)
    ]

-- time.Now().Add(window)
abbrev pub add_window : ℕ → ℤ → ℕ
add_window now (pos w) = now + w
add_window now (negsuc n) = now - suc n

-- What discover returns, how often it has ended its subscription, and when the waiting was over; a
-- discovery that fails does not wait.
pub record Discovery : Type 0 where
  pub reply : Reply (List String)
  pub unsubscribed : ℕ
  pub over : Option ℕ

abbrev pub subscribed : Reply (List String) → Option ℕ → Discovery
subscribed r over = record { reply = r; unsubscribed = 1; over = over }

unfoldable pub discover_within : (String → Bool) → Inbox → ℕ → ℤ → ℕ → Call → Option Discovery
unfolding wait_replies
discover_within valid inbox now window fuel call = elim inbox.subscribe [
  | some e ↦
      some (record { reply = err (wrap "subscribe inbox: " e); unsubscribed = 0; over = none })
  | none ↦ elim inbox.publish [
    | some e ↦ some (subscribed (err (wrap ("publish " <> (call.subject <> ": ")) e)) none)
    | none ↦ elim inbox.flush [
      | some e ↦ some (subscribed (err (wrap "flush: " e)) none)
      | none ↦
          Option.map (λ (w : List String × ℕ). subscribed (ok w.0) (some w.1))
            (wait_replies valid inbox.round (add_window now window) fuel 0 now [])
    ]
  ]
]
