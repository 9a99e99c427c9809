-- ===== src/Gateway/Jsm/Stream/Frames.antt =====
-- How EventSource reads the frames of an overview stream, one after the other.
use Prim.Native.Char.{Char, code}
use Prim.Native.String.{[], ◌∷◌}
use text.Mathlib.TextLemmas.{cons-ne-nil}
use cheshmhayash.Common.{
  ℕ, ◌≡◌, refl, sym, ap, ◌∙◌, ◌≢◌, inl, inr, false, String, List, [], ◌∷◌, none, All, eqb,
  Bool-cases, ◌==◌, eq_iff, arith, if◌then◌else◌,
}
use cheshmhayash.Common.Text.{◌<>◌, one_char}
use cheshmhayash.Common.Text.Laws.{Free, <>_assoc, <>-nil}
use cheshmhayash.Common.EventStream.{Message, lines, messages_of}
use cheshmhayash.Natsx.Cache.{Snapshot}
use cheshmhayash.Common.Text.Laws.{Free-<>}
use cheshmhayash.Natsx.{ok, array_tail, marshal_array}
use cheshmhayash.Natsx.Cache.{snapshot_of}
use cheshmhayash.Gateway.Jsm.Stream.{heartbeat, frame}

-- No end of a line occurs.
abbrev pub OneLine : String → Type 0
OneLine s = Free 10 s × Free 13 s

not_at : (c : Char) (k : ℕ) → code c ≢ k → eqb (code c) k ≡ false
not_at c k h = ground (arith, h)

pub lines-line :
    (line s rest : String)
    → OneLine s
    → lines false line (s <> ("\n" <> rest)) ≡ (line <> s) ∷ lines false "" rest
unfolding lines
lines-line line [] rest h = ap (λ l. l ∷ lines false "" rest) (sym (<>-nil line))
lines-line line (c ∷ s) rest ((p, f), (q, g)) =
    rw (not_at c 10 p, not_at c 13 q)
      (lines-line (line <> one_char c) s rest (f, g)
        ∙ ap (λ l. l ∷ lines false "" rest) (<>_assoc line (one_char c) s))

-- The message of a snapshot.
unfoldable pub message_of : (String → String) → Snapshot → Message
message_of quote snap =
    if snap.err == ""
    then record { kind = "message"; payload = snap.payload }
    else record { kind = "error"; payload = quote snap.err }

abbrev pub read_on : String → List Message
read_on s = messages_of "" none (lines false "" s)

pub read-heartbeat : (rest : String) → read_on (heartbeat <> rest) ≡ read_on rest
unfolding messages_of lines
read-heartbeat rest = refl

cons-full : (c : Char) (s : String) → ((c ∷ s) == "") ≡ false
cons-full c s = ground (arith, eq_iff (c ∷ s) "", cons-ne-nil c s)

messages-data :
    (kind s : String) (ls : List String)
    → messages_of kind none (("data: " <> s) ∷ "" ∷ ls)
      ≡ record { kind = if kind == "" then "message" else kind; payload = s }
        ∷ messages_of "" none ls
unfolding messages_of
messages-data kind s ls = rw (cons-full "d" ("ata: " <> s)) refl

-- The last line of an event, from its data on.
lines-data :
    (s rest : String)
    → OneLine s
    → lines false "data: " ((s <> "\n\n") <> rest) ≡ ("data: " <> s) ∷ "" ∷ lines false "" rest
unfolding lines
lines-data s rest h = rw (<>_assoc s "\n\n" rest) (lines-line "data: " s ("\n" <> rest) h)

pub read-frame :
    (quote : String → String) (snap : Snapshot) (rest : String)
    → ((s : String) → OneLine (quote s))
    → OneLine snap.payload
    → read_on (frame quote snap <> rest) ≡ message_of quote snap ∷ read_on rest
unfolding frame message_of lines messages_of
read-frame quote snap rest q h = elim (Bool-cases (snap.err == "")) [
  | inl fine ↦
      rw (fine, frame)
        (ap (messages_of "" none) (lines-data snap.payload rest h)
          ∙ messages-data "" snap.payload (lines false "" rest))
  | inr failed ↦
      rw (failed, frame)
        (ap (messages_of "error" none) (lines-data (quote snap.err) rest (q snap.err))
          ∙ messages-data "error" (quote snap.err) (lines false "" rest))
]

abbrev pub IsPlain : Snapshot → Type 0
IsPlain snap = OneLine snap.payload

array_tail-OneLine : (ms : List String) → All OneLine ms → OneLine (array_tail ms)
unfolding array_tail
array_tail-OneLine [] h = omega arith
array_tail-OneLine (m ∷ ms) ((p, q), h) =
    let (f, g) = array_tail-OneLine ms h in
    (((λ e. omega arith), Free-<> 10 m _ p f), ((λ e. omega arith), Free-<> 13 m _ q g))

-- The snapshot of a discovery is plain when its replies are.
pub snapshot_of-IsPlain :
    (now : ℕ) (replies : List String) → All OneLine replies → IsPlain (snapshot_of now (ok replies))
unfolding snapshot_of marshal_array
snapshot_of-IsPlain now [] h = omega arith
snapshot_of-IsPlain now (m ∷ ms) ((p, q), h) =
    let (f, g) = array_tail-OneLine ms h in
    (((λ e. omega arith), Free-<> 10 m _ p f), ((λ e. omega arith), Free-<> 13 m _ q g))
