-- ===== src/Natsx/Discovery/Rounds.antt =====
-- The loop of `discover`, round by round: when it ends, and what it has collected by then.
use mathlib.Core.List.{append-nil, append_assoc}
use cheshmhayash.Common.{
  ℕ, zero, suc, ◌+◌, ◌-◌, ◌≤◌, ◌<◌, ◌≡◌, refl, sym, ap, ◌∙◌, ◌≢◌, ◌⊎◌, inl, inr, false, String,
  List, [], ◌∷◌, ◌++◌, Option, none, some, leb, Bool-cases, Option-cases, arith, if◌then◌else◌,
}
use cheshmhayash.Natsx.{Conn, keep_valid}
use cheshmhayash.Natsx.Discovery.{Wait, Round, wait_replies}

-- When round `i`, begun at `now`, reads the clock, and the NextMsg that it then makes, with the time
-- that is left until the deadline.
abbrev pub read_at : (ℕ → Round) → ℕ → ℕ → ℕ
read_at round i now = now + (round i).lag

abbrev pub wait_at : (ℕ → Round) → ℕ → ℕ → ℕ → Wait
wait_at round deadline i now = (round i).next_msg (deadline - read_at round i now)

abbrev pub next_at : (ℕ → Round) → ℕ → ℕ → ℕ → ℕ
next_at round deadline i now = read_at round i now + (wait_at round deadline i now).took

-- The messages of `n` rounds from the `i`th on.
unfoldable pub messages : (ℕ → Round) → ℕ → ℕ → ℕ → ℕ → List String
messages round deadline i now zero = []
messages round deadline i now (suc n) = elim (wait_at round deadline i now).answer [
  | none ↦ []
  | some m ↦ m ∷ messages round deadline (suc i) (next_at round deadline i now) n
]

-- A round that reads the clock too late, with the time at which the loop is then over.
abbrev pub IsLate : (ℕ → Round) → ℕ → ℕ → ℕ → ℕ → Type 0
IsLate round deadline i now over =
    (deadline ≤ read_at round i now)
    × (over ≡ read_at round i now)
    × (over ≤ deadline + (round i).lag)

-- A round whose NextMsg gets no message up to the deadline, or an error before.
abbrev pub IsEmpty : (ℕ → Round) → ℕ → ℕ → ℕ → ℕ → Type 0
IsEmpty round deadline i now over =
    (read_at round i now < deadline)
    × ((wait_at round deadline i now).answer ≡ none)
    × (over ≡ next_at round deadline i now)
    × (over ≤ deadline)

-- From round `i`, begun at `now`, exactly `n` rounds read the clock before the deadline and have got a
-- message by the deadline; the next one is late or empty.
abbrev pub EndsAfter : (ℕ → Round) → ℕ → ℕ → ℕ → ℕ → ℕ → Type 0
EndsAfter round deadline i now over zero =
    IsLate round deadline i now over ⊎ IsEmpty round deadline i now over
EndsAfter round deadline i now over (suc n) =
    (read_at round i now < deadline)
    × ((wait_at round deadline i now).answer ≢ none)
    × (next_at round deadline i now ≤ deadline)
    × EndsAfter round deadline (suc i) (next_at round deadline i now) over n

-- Every round takes a nanosecond.
abbrev pub Advances : (ℕ → Round) → Type 0
Advances round = (i timeout : ℕ) → 1 ≤ (round i).lag + ((round i).next_msg timeout).took

-- NextMsg waits no longer than its timeout; what its caller takes to go on counts for the next round.
abbrev pub Timely : (ℕ → Round) → Type 0
Timely round = (i timeout : ℕ) → ((round i).next_msg timeout).took ≤ timeout

-- How the loop has come to an end, in at most as many rounds as nanoseconds were left.
abbrev pub Collects :
    Conn → (ℕ → Round) → ℕ → ℕ → ℕ → List String → Option (List String × ℕ) → Type 0
Collects c round deadline i now replies r =
    (n : ℕ) × (over : ℕ) × (n ≤ deadline - now)
    × EndsAfter round deadline i now over n
    × (r ≡ some (replies ++ keep_valid c (messages round deadline i now n), over))

lt→leb : (a b : ℕ) → a < b → leb b a ≡ false
lt→leb a b h = ground arith

keep-append :
    (c : Conn) (m : String) (ms replies : List String)
    → (if c.valid m then replies ++ (m ∷ []) else replies) ++ keep_valid c ms
      ≡ replies ++ keep_valid c (m ∷ ms)
unfolding keep_valid
keep-append c m ms replies = elim (Bool-cases (c.valid m)) [
  | inl good ↦ rw good (append_assoc replies (m ∷ []) (keep_valid c ms))
  | inr bad ↦ rw bad refl
]

module _ (c : Conn) (round : ℕ → Round) (deadline : ℕ) (adv : Advances round)
    (timely : Timely round) where
  -- A round that reads the clock in time and gets a message hands over to the next one.
  wait_replies-next :
      (k i now : ℕ) (m : String) (replies : List String)
      → read_at round i now < deadline
      → (wait_at round deadline i now).answer ≡ some m
      → wait_replies c.valid round deadline (suc k) i now replies
        ≡ wait_replies c.valid round deadline k
            (suc i)
            (next_at round deadline i now)
            (if c.valid m then replies ++ (m ∷ []) else replies)
  unfolding wait_replies
  wait_replies-next k i now m replies h e = rw (lt→leb _ _ h, e, wait_replies) refl

  stops_late :
      (k i now : ℕ) (replies : List String)
      → now ≤ deadline
      → deadline ≤ read_at round i now
      → Collects c round deadline i now replies
          (wait_replies c.valid round deadline (suc k) i now replies)
  unfolding messages keep_valid wait_replies
  stops_late k i now replies b h = (
    0,
    read_at round i now,
    omega arith,
    inl (h, refl, omega arith),
    rw (append-nil replies) (ground (arith, h)),
  )

  stops_empty :
      (k i now : ℕ) (replies : List String)
      → read_at round i now < deadline
      → (wait_at round deadline i now).answer ≡ none
      → Collects c round deadline i now replies
          (wait_replies c.valid round deadline (suc k) i now replies)
  unfolding messages keep_valid wait_replies
  stops_empty k i now replies h e = (
    0,
    next_at round deadline i now,
    omega arith,
    inr (h, e, refl, omega (arith, timely i (deadline - read_at round i now))),
    rw (append-nil replies) (rw (lt→leb _ _ h, e, wait_replies) refl),
  )

  goes_on :
      (k i now : ℕ) (m : String) (replies : List String)
      → read_at round i now < deadline
      → (wait_at round deadline i now).answer ≡ some m
      → Collects c round deadline
          (suc i)
          (next_at round deadline i now)
          (if c.valid m then replies ++ (m ∷ []) else replies)
          (wait_replies c.valid round deadline k
            (suc i)
            (next_at round deadline i now)
            (if c.valid m then replies ++ (m ∷ []) else replies))
      → Collects c round deadline i now replies
          (wait_replies c.valid round deadline (suc k) i now replies)
  unfolding messages
  goes_on k i now m replies h e (n, over, few, ends, r) =
      let left = deadline - read_at round i now in
      let after = next_at round deadline i now in
      (
        suc n,
        over,
        omega (arith, adv i left, timely i left),
        (h, (λ gone. cc (sym gone ∙ e)), omega (arith, timely i left), ends),
        rw (e, messages)
            (wait_replies-next k i now m replies h e
              ∙ r
              ∙ ap (λ kept. some (kept, over))
                  (keep-append c m (messages round deadline (suc i) after n) replies)),
      )

  pub wait_replies-Collects :
      (k i now : ℕ) (replies : List String)
      → now ≤ deadline
      → deadline ≤ now + k
      → Collects c round deadline i now replies
          (wait_replies c.valid round deadline (suc k) i now replies)
  wait_replies-Collects zero i now replies b h = stops_late zero i now replies b (omega arith)
  wait_replies-Collects (suc k) i now replies b h =
      elim (Bool-cases (leb deadline (read_at round i now))) [
        | inl late ↦ stops_late (suc k) i now replies b (ground arith)
        | inr early ↦ elim (Option-cases (wait_at round deadline i now).answer) [
          | inl over ↦ stops_empty (suc k) i now replies (ground arith) over
          | inr (m, got) ↦
              let left = deadline - read_at round i now in
              goes_on (suc k) i now m replies (ground arith) got (
                wait_replies-Collects k (suc i) (next_at round deadline i now) _
                  (ground (arith, timely i left)) (omega (arith, adv i left)))
        ]
      ]
