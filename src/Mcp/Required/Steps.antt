-- ===== src/Mcp/Required/Steps.antt =====
-- The steps of a tool whose arguments lack something.
use cheshmhayash.Common.{
  ◌≡◌, refl, sym, inl, inr, ◌⊎◌, ◌||◌, Bool, true, false, String, List, All, arith, Option-cases,
  ◌==◌, eq_iff, if◌then◌else◌,
}
use mathlib.Core.Path.{subst}
use cheshmhayash.Natsx.{Conn, is_server_endpoint, is_account_endpoint}
use cheshmhayash.Mcp.{Runtime, Outcome, refuse, resolve_cluster}
use cheshmhayash.Mcp.Args.{Field, Args, tag, decode_args, decoded}
use cheshmhayash.Mcp.Args.Zero.{missing, Zero, decode_args-Zero}
use cheshmhayash.Mcp.Frame.{Raw}
use cheshmhayash.Mcp.Tools
use cheshmhayash.Mcp.Writes
use cheshmhayash.Mcp.Strict.{Refuses}

-- The steps of a tool, when what they test is missing.
pub refuse-Refuses : (why : String) → Refuses (refuse why)
unfolding refuse
refuse-Refuses why = ((_, refl), refl)

pub stop-Refuses :
    (b : Bool) (why : String) (y : Outcome) → b ≡ true → Refuses (if b then refuse why else y)
stop-Refuses true why y e = refuse-Refuses why
stop-Refuses false why y e = absurd (cc e)

pub pass-Refuses :
    (b : Bool) (why : String) (y : Outcome) → Refuses y → Refuses (if b then refuse why else y)
pass-Refuses true why y h = refuse-Refuses why
pass-Refuses false why y h = h

pub endpoint-Refuses :
    (b : Bool) (x : Outcome) (rt : Runtime) (ep : String) (allowed : List String)
    → (b ≡ false) ⊎ Refuses x
    → Refuses (if b then x else Tools.unknown_endpoint rt ep allowed)
unfolding Tools.unknown_endpoint
endpoint-Refuses true x rt ep allowed (inl e) = absurd (cc e)
endpoint-Refuses true x rt ep allowed (inr h) = h
endpoint-Refuses false x rt ep allowed h = refuse-Refuses _

pub confirm-Refuses :
    (b : Bool) (deed : String) (rest : Outcome)
    → (b ≡ false) ⊎ Refuses rest
    → Refuses (Writes.confirmed b deed rest)
unfolding Writes.confirmed
confirm-Refuses true deed rest (inl e) = absurd (cc e)
confirm-Refuses true deed rest (inr h) = h
confirm-Refuses false deed rest h = refuse-Refuses _

pub cluster-Refuses :
    (rt : Runtime) (name : String) (k : Conn → Outcome)
    → name ≡ ""
    → Refuses (resolve_cluster rt name k)
unfolding resolve_cluster
cluster-Refuses rt name k e = stop-Refuses (name == "") _ _ ((eq_iff name "").1 e)

pub decoded-Refuses :
    (rt : Runtime) (fs : List Field) (f : Field) (k : Args → Outcome)
    → ((a : Args) → Zero f a → Refuses (k a))
    → (args : Raw) → missing (tag f) args ≡ true
    → Refuses (decoded rt fs args k)
unfolding decoded
decoded-Refuses rt fs f k h args m = elim (Option-cases (decode_args fs args)) [
  | inl e ↦ rw (e, decoded) (refuse-Refuses _)
  | inr (a, e) ↦ rw (e, decoded) (h a (decode_args-Zero fs f args a e m))
]

pub empty : (s : String) → s ≡ "" → (s == "") ≡ true
empty s = (eq_iff s "").1

module _ (rt : Runtime) (name : String) (k : Conn → Outcome) where
  -- One text, or two, that must not be empty, and then the cluster.
  pub keyed :
      (s why : String)
      → (s ≡ "") ⊎ (name ≡ "")
      → Refuses (if s == "" then refuse why else resolve_cluster rt name k)
  keyed s why (inl e) = stop-Refuses _ why _ (empty s e)
  keyed s why (inr e) = pass-Refuses (s == "") why _ (cluster-Refuses rt name k e)

  pub paired :
      (s t why : String)
      → (s ≡ "") ⊎ (t ≡ "") ⊎ (name ≡ "")
      → Refuses (if s == "" || t == "" then refuse why else resolve_cluster rt name k)
  paired s t why (inl e) = stop-Refuses (s == "" || t == "") why _ (ground (arith, empty s e))
  paired s t why (inr (inl e)) = stop-Refuses (s == "" || t == "") why _ (ground (arith, empty t e))
  paired s t why (inr (inr e)) =
      pass-Refuses (s == "" || t == "") why _ (cluster-Refuses rt name k e)

-- The tool refuses arguments that lack one of the fields.
abbrev pub Needs : (Runtime → Raw → Outcome) → List Field → Type 0
Needs handler fs =
    All
      (λ (f : Field).
        (rt : Runtime) (args : Raw) → missing (tag f) args ≡ true → Refuses (handler rt args))
      fs

pub no_server_endpoint : (s : String) → s ≡ "" → is_server_endpoint s ≡ false
unfolding is_server_endpoint
no_server_endpoint s e = subst (λ t. is_server_endpoint t ≡ false) (sym e) refl

pub no_account_endpoint : (s : String) → s ≡ "" → is_account_endpoint s ≡ false
unfolding is_account_endpoint
no_account_endpoint s e = subst (λ t. is_account_endpoint t ≡ false) (sym e) refl
