-- ===== src/Natsx/Subjects.antt =====
-- Which subjects change a server or a stream, read off the subject alone, and which requests the
-- read-only operations make.
use Prim.Native.String.{[], ◌∷◌}
use Prim.Native.Char.{code}
use mathlib.Core.Path.{subst}
use cheshmhayash.Common.{
  All, ◌==◌, not, ◌&&◌, eqb, eqb_iff, Bool-cases, ℕ, ◌≡◌, refl, sym, ◌∙◌, ◌≢◌, ◌⊎◌, inl, inr, Bool,
  true, String, List, [], ◌∷◌, some, arith, eq_iff, Some,
}
use cheshmhayash.Common.Text.{◌<>◌, has_prefix, cut_last, to_upper, mem}
use cheshmhayash.Common.Text.Laws.{Free, cut_last-join}
use cheshmhayash.Http.{Call}
use cheshmhayash.Natsx.{
  server_endpoints, is_server_endpoint, is_account_endpoint, ping, ping_endpoint, server_endpoint,
  account_endpoint, list_streams, stream_info, list_consumers, consumer_info, jsm_overview,
}

-- The JetStream subjects that change something.
abbrev pub write_prefixes : List String
write_prefixes =
    "$JS.API.STREAM.UPDATE." ∷ "$JS.API.STREAM.PURGE." ∷ "$JS.API.STREAM.DELETE."
    ∷ "$JS.API.CONSUMER.DELETE." ∷ "$JS.API.META.LEADER.STEPDOWN"
    ∷ "$JS.API.STREAM.LEADER.STEPDOWN." ∷ "$JS.API.CONSUMER.LEADER.STEPDOWN." ∷ []

-- The last tokens that order a server about.
abbrev pub orders : List String
orders = "RELOAD" ∷ "LDM" ∷ "KICK" ∷ []

abbrev pub LastToken : String → String → Type 0
LastToken subject token = (front : String) × (cut_last b'.' subject ≡ some (front, token))

abbrev pub Mutates : Call → Type 0
Mutates call =
    Some (λ p. has_prefix call.subject p ≡ true) write_prefixes
    ⊎ ((has_prefix call.subject "$SYS.REQ.SERVER." ≡ true) × Some (LastToken call.subject) orders)

-- The requests of the operations that only look.
pub data IsRead : Call → Type 0 where
  pinged : IsRead ping
  pinged_endpoint : (ep : String) → is_server_endpoint ep ≡ true → IsRead (ping_endpoint ep)
  asked_server : (id ep : String) → is_server_endpoint ep ≡ true → IsRead (server_endpoint id ep)
  asked_account :
      (account ep : String) → is_account_endpoint ep ≡ true → IsRead (account_endpoint account ep)
  overviewed : IsRead jsm_overview
  streams_listed : (offset : ℕ) → IsRead (list_streams offset)
  stream_shown : (name : String) → IsRead (stream_info name)
  consumers_listed : (stream : String) (offset : ℕ) → IsRead (list_consumers stream offset)
  consumer_shown : (stream consumer : String) → IsRead (consumer_info stream consumer)

-- No order is an endpoint, and no endpoint holds a dot.
abbrev IsQuiet : String → Type 0
IsQuiet token = Free b'.' token × (token ≢ "RELOAD") × (token ≢ "LDM") × (token ≢ "KICK")

mem-All : (P : String → Type 0) (xs : List String) (s : String) → All P xs → mem xs s ≡ true → P s
unfolding mem
mem-All P [] s h e = cc
mem-All P (x ∷ xs) s (p, h) e = elim (Bool-cases (x == s)) [
  | inl same ↦ subst P ((eq_iff x s).0 same) p
  | inr other ↦ mem-All P xs s h (ground arith)
]

is_free : ℕ → String → Bool
is_free k [] = true
is_free k (c ∷ s) = not (eqb (code c) k) && is_free k s

is_free_sound : (k : ℕ) (s : String) → is_free k s ≡ true → Free k s
unfolding is_free
is_free_sound k [] h = tt
is_free_sound k (c ∷ s) h = ground (arith, is_free_sound k s, eqb_iff (code c) k)

quiet : String → Bool
unfolding is_free mem
quiet s = is_free b'.' s && not (mem orders s)

quiet_sound : (s : String) → quiet s ≡ true → IsQuiet s
unfolding quiet
quiet_sound s h = (
  is_free_sound b'.' s (ground arith),
  ground (arith, eq_iff "RELOAD" s),
  ground (arith, eq_iff "LDM" s),
  ground (arith, eq_iff "KICK" s),
)

server_endpoints-quiet : All (λ ep. quiet ep ≡ true) server_endpoints
unfolding quiet
server_endpoints-quiet = ground arith

endpoint-IsQuiet : (ep : String) → is_server_endpoint ep ≡ true → IsQuiet (to_upper ep)
unfolding is_server_endpoint
endpoint-IsQuiet ep h =
    quiet_sound (to_upper ep)
      (mem-All (λ x. quiet x ≡ true) server_endpoints (to_upper ep) server_endpoints-quiet h)

-- A subject whose last token is quiet gives no order.
quiet-no_order :
    (subject front token : String)
    → cut_last b'.' subject ≡ some (front, token)
    → IsQuiet token
    → Some (LastToken subject) orders
    → ⊥
quiet-no_order subject front token e (_, r, l, k) (inl (f, e')) = r (cc (sym e ∙ e'))
quiet-no_order subject front token e (_, r, l, k) (inr (inl (f, e'))) = l (cc (sym e ∙ e'))
quiet-no_order subject front token e (_, r, l, k) (inr (inr (inl (f, e')))) = k (cc (sym e ∙ e'))
quiet-no_order subject front token e (_, r, l, k) (inr (inr (inr h))) = h

-- None of the read-only requests changes anything.
pub IsRead-not-Mutates : (call : Call) → IsRead call → ¬ Mutates call
IsRead-not-Mutates call pinged (inl m) = unfold has_prefix ping in ground arith
IsRead-not-Mutates call pinged (inr (_, m)) =
    quiet-no_order ping.subject "$SYS.REQ.SERVER" "PING" (unfold cut_last ping in refl)
      (quiet_sound "PING" (unfold quiet in refl)) m
IsRead-not-Mutates call (pinged_endpoint ep h) (inl m) =
    unfold has_prefix ping_endpoint in ground arith
IsRead-not-Mutates call (pinged_endpoint ep h) (inr (_, m)) =
    let q = endpoint-IsQuiet ep h in
    quiet-no_order (ping_endpoint ep).subject "$SYS.REQ.SERVER.PING" (to_upper ep)
      (unfold ping_endpoint in cut_last-join b'.' "$SYS.REQ.SERVER.PING" "." (to_upper ep) refl q.0)
      q m
IsRead-not-Mutates call (asked_server id ep h) (inl m) =
    unfold has_prefix server_endpoint in ground arith
IsRead-not-Mutates call (asked_server id ep h) (inr (_, m)) =
    let q = endpoint-IsQuiet ep h in
    quiet-no_order (server_endpoint id ep).subject ("$SYS.REQ.SERVER." <> id) (to_upper ep)
      (unfold server_endpoint in
        cut_last-join b'.' ("$SYS.REQ.SERVER." <> id) "." (to_upper ep) refl q.0)
      q m
IsRead-not-Mutates call (asked_account account ep h) m =
    unfold has_prefix account_endpoint in ground arith
IsRead-not-Mutates call overviewed (inl m) = unfold has_prefix jsm_overview in ground arith
IsRead-not-Mutates call overviewed (inr (_, m)) =
    quiet-no_order jsm_overview.subject "$SYS.REQ.SERVER.PING" "JSZ"
      (unfold cut_last jsm_overview in refl) (quiet_sound "JSZ" (unfold quiet in refl)) m
IsRead-not-Mutates call (streams_listed offset) m = unfold has_prefix list_streams in ground arith
IsRead-not-Mutates call (stream_shown name) m = unfold has_prefix stream_info in ground arith
IsRead-not-Mutates call (consumers_listed stream offset) m =
    unfold has_prefix list_consumers in ground arith
IsRead-not-Mutates call (consumer_shown stream consumer) m =
    unfold has_prefix consumer_info in ground arith
