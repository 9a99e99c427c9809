-- ===== src/Notify/Classify/Laws.antt =====
-- Which subjects are reported.
use mathlib.Core.Path.{subst}
use cheshmhayash.Common.{
  ◌≡◌, ◌↔◌, refl, sym, ap, ◌∙◌, inl, inr, true, String, List, [], ◌∷◌, Option, none, some, is_some,
  All, Some, arith, eq_iff, Bool-cases, ◌==◌, if◌then◌else◌,
}
use cheshmhayash.Common.Text.{◌<>◌, split, join}
use cheshmhayash.Common.Text.Laws.{Free}
use cheshmhayash.Common.Text.Split.{cut-<>, split-join}
use cheshmhayash.Json.{Json, Fields}
use cheshmhayash.Notify.Classify.{
  local_prefix, account_prefix, account_infix, js_advisory_suffix, classify, classify_parts,
  stream_event, consumer_event, payload_of,
}

suffix-local : (rest : String) → js_advisory_suffix (local_prefix <> rest) ≡ rest
unfolding js_advisory_suffix
suffix-local rest = refl

suffix-account :
    (account rest : String)
    → Free b'.' account
    → js_advisory_suffix (account_prefix <> (account <> (account_infix <> rest))) ≡ rest
unfolding js_advisory_suffix
suffix-account account rest h =
    ap (λ (o : Option (String × String)). elim o [ none ↦ "" | some (front, tail) ↦ tail ])
      (cut-<> account "." "JETSTREAM.EVENT.ADVISORY." rest h)

-- The advisories that are reported: of a stream by five actions and of a consumer by four, with the
-- names of what they are about.
abbrev pub stream_actions : List String
stream_actions = "CREATED" ∷ "UPDATED" ∷ "DELETED" ∷ "LEADER_ELECTED" ∷ "QUORUM_LOST" ∷ []

abbrev pub consumer_actions : List String
consumer_actions = "CREATED" ∷ "DELETED" ∷ "LEADER_ELECTED" ∷ "QUORUM_LOST" ∷ []

pub data IsReported : List String → Type 0 where
  of_stream :
      (action stream : String) (more : List String)
      → Some (λ a. action ≡ a) stream_actions
      → IsReported ("STREAM" ∷ action ∷ stream ∷ more)
  of_consumer :
      (action stream consumer : String) (more : List String)
      → Some (λ a. action ≡ a) consumer_actions
      → IsReported ("CONSUMER" ∷ action ∷ stream ∷ consumer ∷ more)

stream_event_iff :
    (action account stream leader : String) (replicas : List String)
    → (is_some (stream_event action account stream leader replicas) ≡ true)
      ↔ Some (λ a. action ≡ a) stream_actions
unfolding stream_event
stream_event_iff action account stream leader replicas = ground (
  arith,
  eq_iff action "CREATED",
  eq_iff action "UPDATED",
  eq_iff action "DELETED",
  eq_iff action "LEADER_ELECTED",
  eq_iff action "QUORUM_LOST",
)

consumer_event_iff :
    (action account stream consumer leader : String) (replicas : List String)
    → (is_some (consumer_event action account stream consumer leader replicas) ≡ true)
      ↔ Some (λ a. action ≡ a) consumer_actions
unfolding consumer_event
consumer_event_iff action account stream consumer leader replicas = ground (
  arith,
  eq_iff action "CREATED",
  eq_iff action "DELETED",
  eq_iff action "LEADER_ELECTED",
  eq_iff action "QUORUM_LOST",
)

module _ (m : Fields) where
  streams :
      (action : String) (rest : List String)
      → is_some (classify_parts ("STREAM" ∷ action ∷ rest) m) ≡ true
      → IsReported ("STREAM" ∷ action ∷ rest)
  unfolding classify_parts
  streams action [] h = ground arith
  streams action (s ∷ more) h =
      IsReported.of_stream action s more ((stream_event_iff action _ s _ _).0 h)

  consumers :
      (action : String) (rest : List String)
      → is_some (classify_parts ("CONSUMER" ∷ action ∷ rest) m) ≡ true
      → IsReported ("CONSUMER" ∷ action ∷ rest)
  unfolding classify_parts
  consumers action [] h = ground arith
  consumers action (s ∷ []) h = ground arith
  consumers action (s ∷ c ∷ more) h =
      IsReported.of_consumer action s c more ((consumer_event_iff action _ s c _ _).0 h)

  parts_sound : (parts : List String) → is_some (classify_parts parts m) ≡ true → IsReported parts
  unfolding classify_parts
  parts_sound [] h = ground arith
  parts_sound (kind ∷ []) h = ground arith
  parts_sound (kind ∷ action ∷ rest) h = elim (Bool-cases (kind == "STREAM")) [
    | inl s ↦
        let e = sym ((eq_iff kind "STREAM").0 s) in
        subst (λ k. IsReported (k ∷ action ∷ rest)) e
          (streams action rest
            (subst (λ k. is_some (classify_parts (k ∷ action ∷ rest) m) ≡ true) (sym e) h))
    | inr other ↦ elim (Bool-cases (kind == "CONSUMER")) [
      | inl c ↦
          let e = sym ((eq_iff kind "CONSUMER").0 c) in
          subst (λ k. IsReported (k ∷ action ∷ rest)) e
            (consumers action rest
              (subst (λ k. is_some (classify_parts (k ∷ action ∷ rest) m) ≡ true) (sym e) h))
      | inr neither ↦ ground (arith, h, other, neither)
    ]
  ]

  parts_complete :
      (parts : List String) → IsReported parts → is_some (classify_parts parts m) ≡ true
  unfolding classify_parts
  parts_complete parts (of_stream action s more a) = (stream_event_iff action _ s _ _).1 a
  parts_complete parts (of_consumer action s c more a) = (consumer_event_iff action _ s c _ _).1 a

  -- The test for an empty suffix changes nothing.
  empty_suffix :
      (suffix : String)
      → (if suffix == "" then none else classify_parts (split suffix ".") m)
        ≡ classify_parts (split suffix ".") m
  unfolding classify_parts split
  empty_suffix suffix = elim (Bool-cases (suffix == "")) [
    | inl e ↦ rw ((eq_iff suffix "").0 e) refl
    | inr full ↦ rw full refl
  ]

module _ (unmarshal : String → Option Json) (raw : String) where
  -- An advisory of the local account, its subject made of tokens without dots, is reported exactly
  -- when it is one of a stream that was created, updated, deleted, got a leader or lost its quorum,
  -- or of a consumer with all of these but an update, and names the stream, or stream and consumer.
  pub classify_iff :
      (part : String) (parts : List String)
      → All (Free b'.') (part ∷ parts)
      → (is_some (classify unmarshal (local_prefix <> join (part ∷ parts) ".") raw) ≡ true)
        ↔ IsReported (part ∷ parts)
  unfolding classify
  classify_iff part parts h =
      let m = payload_of (unmarshal raw) in
      let same : classify unmarshal (local_prefix <> join (part ∷ parts) ".") raw
          ≡ classify_parts (part ∷ parts) m =
        empty_suffix m (join (part ∷ parts) ".")
        ∙ ap (λ ps. classify_parts ps m) (split-join part parts h) in
      rw same (parts_sound m (part ∷ parts), parts_complete m (part ∷ parts))

  -- An advisory is reported alike in its local form and in the form that is bridged to the system
  -- account, whatever the account, whose name has no dots.
  pub classify-account :
      (account rest : String)
      → Free b'.' account
      → classify unmarshal (account_prefix <> (account <> (account_infix <> rest))) raw
        ≡ classify unmarshal (local_prefix <> rest) raw
  unfolding classify
  classify-account account rest h =
      ap
        (λ suffix.
          if suffix == ""
          then none
          else classify_parts (split suffix ".") (payload_of (unmarshal raw)))
        (suffix-account account rest h ∙ sym (suffix-local rest))
