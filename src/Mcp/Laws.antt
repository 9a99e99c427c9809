-- ===== src/Mcp/Laws.antt =====
-- What a tool asks of NATS, through the steps that tools are built from.
use cheshmhayash.Common.{
  ◌≡◌, refl, inl, inr, Bool, true, false, String, List, [], ◌∷◌, Option, some, All, arith,
  Option-cases, Bool-cases, ◌==◌, if◌then◌else◌,
}
use mathlib.Core.Path.{subst}
use cheshmhayash.Json.{Json}
use cheshmhayash.Http.{Call}
use cheshmhayash.Natsx.{Conn}
use cheshmhayash.Gateway.{get}
use cheshmhayash.Mcp.{Runtime, Outcome, refuse, one, all, resolve_cluster}
use cheshmhayash.Mcp.Args.{Field, Args, decode_args, decoded}
use cheshmhayash.Mcp.Table.{Tool}
use cheshmhayash.Mcp.Rpc.{find_tool}

-- Everything that the tool has asked of NATS has the property.
abbrev pub Makes : (Call → Type 0) → Outcome → Type 0
Makes P out = All P out.calls

module _ (P : Call → Type 0) where
  pub refuse-Makes : (why : String) → Makes P (refuse why)
  unfolding refuse
  refuse-Makes why = tt

  pub one-Makes : (c : Conn) (call : Call) → P call → Makes P (one c call)
  unfolding one
  one-Makes c call p = (p, tt)

  pub all-Makes : (c : Conn) (call : Call) → P call → Makes P (all c call)
  unfolding all
  all-Makes c call p = (p, tt)

  pub test-Makes :
      (b : Bool) (x y : Outcome)
      → ((b ≡ true) → Makes P x)
      → Makes P y
      → Makes P (if b then x else y)
  test-Makes true x y h k = h refl
  test-Makes false x y h k = k

  -- A test that ends in an error.
  pub guard-Makes :
      (b : Bool) (why : String) (y : Outcome) → Makes P y → Makes P (if b then refuse why else y)
  guard-Makes b why y h = test-Makes b (refuse why) y (λ _. refuse-Makes why) h

  pub resolve_cluster-Makes :
      (rt : Runtime) (name : String) (k : Conn → Outcome)
      → ((c : Conn) → Makes P (k c))
      → Makes P (resolve_cluster rt name k)
  unfolding resolve_cluster refuse
  resolve_cluster-Makes rt name k h =
      guard-Makes (name == "") _ _ (elim (Option-cases (get rt.clusters name)) [
        | inl e ↦ rw (e, All) tt
        | inr (c, e) ↦ rw (e, All) (h c)
      ])

  pub decoded-Makes :
      (rt : Runtime) (fs : List Field) (args : Option Json) (k : Args → Outcome)
      → ((a : Args) → decode_args fs args ≡ some a → Makes P (k a))
      → Makes P (decoded rt fs args k)
  unfolding decoded refuse
  decoded-Makes rt fs args k h = elim (Option-cases (decode_args fs args)) [
    | inl e ↦ rw (e, decoded) tt
    | inr (a, e) ↦ rw (e, decoded) (h a e)
  ]

  -- One request behind a cluster's name.
  pub ask-Makes :
      (rt : Runtime) (name : String) (call : Call)
      → P call
      → Makes P (resolve_cluster rt name λ c. one c call)
  ask-Makes rt name call p = resolve_cluster-Makes rt name _ λ c. one-Makes c call p

  pub ask_all-Makes :
      (rt : Runtime) (name : String) (call : Call)
      → P call
      → Makes P (resolve_cluster rt name λ c. all c call)
  ask_all-Makes rt name call p = resolve_cluster-Makes rt name _ λ c. all-Makes c call p

-- What holds of every tool of the registry holds of the one that is found.
pub find_tool-All :
    (P : Tool → Type 0) (ts : List Tool) (name : String) (t : Tool)
    → All P ts
    → find_tool ts name ≡ some t
    → P t
unfolding find_tool
find_tool-All P [] name t h e = ground arith
find_tool-All P (u ∷ us) name t (p, h) e = elim (Bool-cases (u.name == name)) [
  | inl same ↦ subst P (ground (arith, e, same)) p
  | inr other ↦ find_tool-All P us name t h (ground (arith, e, other))
]
