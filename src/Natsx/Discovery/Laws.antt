-- ===== src/Natsx/Discovery/Laws.antt =====
-- The waiting of `discover` ends in time, and collects what its single-step description `discover`
-- says.
use mathlib.Core.Option
use cheshmhayash.Common.{
  ℕ, suc, ◌+◌, ◌≤◌, ℤ, pos, negsuc, pos_part, ◌≡◌, refl, sym, ap, ◌∙◌, inl, inr, String, List, [],
  ◌∷◌, Option, none, some, Option-cases, arith, if◌then◌else◌,
}
use cheshmhayash.Common.Text.{◌<>◌}
use cheshmhayash.Http.{Call}
use cheshmhayash.Natsx.{Reply, err, ok, wrap, Conn, keep_valid, discover}
use cheshmhayash.Natsx.Discovery.{
  Round, Inbox, wait_replies, add_window, subscribed, discover_within,
}
use cheshmhayash.Natsx.Discovery.Rounds.{
  messages, Advances, Timely, EndsAfter, Collects, wait_replies-Collects,
}

-- What the client has collected after `n` rounds that began at `now`, or why it could not.
unfoldable pub outcome : Inbox → ℕ → ℕ → ℕ → Call → Reply (List String)
outcome inbox deadline now n call = elim inbox.subscribe [
  | some e ↦ err (wrap "subscribe inbox: " e)
  | none ↦ elim inbox.publish [
    | some e ↦ err (wrap ("publish " <> (call.subject <> ": ")) e)
    | none ↦ elim inbox.flush [
      | some e ↦ err (wrap "flush: " e)
      | none ↦ ok (messages inbox.round deadline 0 now n)
    ]
  ]
]

-- A connection whose inbox has that to collect.
abbrev pub over_inbox : Conn → Inbox → ℕ → ℕ → ℕ → Conn
over_inbox c inbox deadline now n = record c { collect = outcome inbox deadline now n }

abbrev pub ended : Inbox → ℕ
ended inbox = elim inbox.subscribe [ none ↦ 1 | some e ↦ 0 ]

-- The end of the waiting, where there is one.
abbrev pub waited : Inbox → ℕ → Option ℕ
waited inbox over = elim inbox.subscribe [
  | some e ↦ none
  | none ↦ elim inbox.publish [
    | some e ↦ none
    | none ↦ elim inbox.flush [ some e ↦ none | none ↦ some over ]
  ]
]

keep_valid-collect :
    (c : Conn) (f : Call → Reply (List String)) (ms : List String)
    → keep_valid (record c { collect = f }) ms ≡ keep_valid c ms
unfolding keep_valid
keep_valid-collect c f [] = refl
keep_valid-collect c f (m ∷ ms) =
    ap (λ rest. if c.valid m then m ∷ rest else rest) (keep_valid-collect c f ms)

kept : Conn → Reply (List String) → Reply (List String)
kept c (ok ms) = ok (keep_valid c ms)
kept c (err e) = err e

discover-kept :
    (c : Conn) (f : Call → Reply (List String)) (call : Call) (r : Reply (List String))
    → f call ≡ r
    → discover (record c { collect = f }) call ≡ kept c r
unfolding discover kept
discover-kept c f call (ok ms) e = rw (e, discover) (ap ok (keep_valid-collect c f ms))
discover-kept c f call (err why) e = rw (e, discover) refl

reply_of :
    (c : Conn) (inbox : Inbox) (now k : ℕ) (window : ℤ) (call : Call) (deadline n over : ℕ)
    → wait_replies c.valid inbox.round (add_window now window) (suc k) 0 now []
      ≡ some (keep_valid c (messages inbox.round deadline 0 now n), over)
    → discover_within c.valid inbox now window (suc k) call
      ≡ some (record {
        reply = kept c (outcome inbox deadline now n call);
        unsubscribed = ended inbox;
        over = waited inbox over;
      })
unfolding discover_within kept outcome
reply_of c inbox now k window call deadline n over r = elim (Option-cases inbox.subscribe) [
  | inr (e, at) ↦ rw (at, discover_within, outcome) refl
  | inl made ↦ elim (Option-cases inbox.publish) [
    | inr (e, at) ↦ rw (made, at, discover_within, outcome) refl
    | inl sent ↦ elim (Option-cases inbox.flush) [
      | inr (e, at) ↦ rw (made, sent, at, discover_within, outcome) refl
      | inl flushed ↦
          rw (made, sent, flushed, discover_within, outcome)
            (ap (Option.map (λ (w : List String × ℕ). subscribed (ok w.0) (some w.1))) r)
    ]
  ]
]

-- The loop over a window; one that is not positive ends in its first round.
window-Collects :
    (c : Conn) (round : ℕ → Round) (now k : ℕ) (window : ℤ)
    → Advances round
    → Timely round
    → pos_part window ≤ k
    → Collects c round
        (now + pos_part window)
        0
        now
        []
        (wait_replies c.valid round (add_window now window) (suc k) 0 now [])
window-Collects c round now k (pos w) adv timely h =
    wait_replies-Collects c round (now + w) adv timely k 0 now [] (omega arith) (omega arith)
window-Collects c round now k (negsuc w) adv timely h =
    unfold wait_replies messages keep_valid in
    (0, now + (round 0).lag, omega arith, inl (omega arith, refl, omega arith), ground arith)

-- Where every round takes some time and NextMsg waits no longer than it is told, discover ends on every
-- path, within as many rounds as its window has nanoseconds: no more fuel is needed. It then returns
-- what `discover` says of the messages of its rounds up to the first that reads the clock at the
-- deadline or later, or that gets no message or an error. The deadline is the start and the window, and each
-- of these messages has come by it; the waiting is over by the deadline too, but for the time that
-- passes before its last reading of the clock. It has ended its subscription exactly if it was made.
pub discover_within-ends :
    (c : Conn) (inbox : Inbox) (now k : ℕ) (window : ℤ) (call : Call)
    → Advances inbox.round
    → Timely inbox.round
    → pos_part window ≤ k
    → (n : ℕ) × (over : ℕ) × (n ≤ pos_part window)
      × EndsAfter inbox.round (now + pos_part window) 0 now over n
      × (discover_within c.valid inbox now window (suc k) call
          ≡ some (record {
            reply = discover (over_inbox c inbox (now + pos_part window) now n) call;
            unsubscribed = ended inbox;
            over = waited inbox over;
          }))
discover_within-ends c inbox now k window call adv timely h =
    let deadline = now + pos_part window in
    let (n, over, few, ends, r) = window-Collects c inbox.round now k window adv timely h in
    let collected = outcome inbox deadline now n in
    (
      n,
      over,
      omega (arith, few),
      ends,
      reply_of c inbox now k window call deadline n over r
          ∙ ap
              (λ reply.
                some
                  (record { reply = reply; unsubscribed = ended inbox; over = waited inbox over }))
              (sym (discover-kept c collected call (collected call) refl)),
    )
