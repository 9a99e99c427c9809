-- ===== src/Config/Env/Laws.antt =====
-- What an indexed variable assigns, and the index that makes the overlay panic.
use mathlib.Core.Path.{subst}
use cheshmhayash.Common.{
  ℕ, pos, negsuc, zero, suc, ◌<◌, ◌≡◌, refl, ap, ◌∙◌, ◌≢◌, ◌↔◌, ◌⊎◌, inl, inr, String, List, [],
  ◌∷◌, some, arith, length, Option-cases,
}
use cheshmhayash.Common.Text.{to_lower}
use cheshmhayash.Config.{Nats}
use cheshmhayash.Config.Env.{
  Outcome, assigned, failed, panicked, atoi, update_at, at_index, blank_nats, set_nats_field,
}
use cheshmhayash.Config.Env.Entries.{Sets, set_nats_field-Sets}
use cheshmhayash.Config.Env.Paths.{apply_nats}

Outcome-cases :
    {B : Type 0} (r : Outcome B)
    → ((a : B) × (r ≡ assigned a)) ⊎ ((e : String) × (r ≡ failed e)) ⊎ (r ≡ panicked)
Outcome-cases (assigned a) = inl (a, refl)
Outcome-cases (failed e) = inr (inl (e, refl))
Outcome-cases panicked = inr (inr refl)

module _ {A : Type 0} (blank : A) where
  -- An entry of a list, or the blank one beyond its end.
  abbrev pub entry : List A → ℕ → A
  entry [] i = blank
  entry (x ∷ xs) zero = x
  entry (x ∷ xs) (suc i) = entry xs i

  -- The list with one entry changed as `R` says: the others are as before, and blanks fill up what was missing.
  pub record IsUpdate (R : A → A → Type 0) (i : ℕ) (xs ys : List A) : Type 0 where
    pub value : A
    pub made : R (entry xs i) value
    pub here : entry ys i ≡ value
    pub elsewhere : (j : ℕ) → j ≢ i → entry ys j ≡ entry xs j
    pub reach : i < length ys
    pub size : (length ys ≡ length xs) ⊎ (length ys ≡ suc i)

  here-IsUpdate :
      (R : A → A → Type 0) (x y : A) (xs : List A) → R x y → IsUpdate R zero (x ∷ xs) (y ∷ xs)
  here-IsUpdate R x y xs e = record {
    value = y;
    made = e;
    here = refl;
    elsewhere = λ j ne.
        elim j as (λ k. k ≢ 0 → entry (y ∷ xs) k ≡ entry (x ∷ xs) k) [
          | zero ↦ λ same. absurd (same refl)
          | suc k ↦ λ _. refl
        ]
          ne;
    reach = omega arith;
    size = inl refl;
  }

  later-IsUpdate :
      (R : A → A → Type 0) (i : ℕ) (x : A) (xs ys : List A)
      → IsUpdate R i xs ys
      → IsUpdate R (suc i) (x ∷ xs) (x ∷ ys)
  later-IsUpdate R i x xs ys u = record {
    value = u.value;
    made = u.made;
    here = u.here;
    elsewhere = λ j ne.
        elim j as (λ k. k ≢ suc i → entry (x ∷ ys) k ≡ entry (x ∷ xs) k) [
          | zero ↦ λ _. refl
          | suc k ↦ λ other. u.elsewhere k (λ same. other (ap suc same))
        ]
          ne;
    reach = omega (arith, u.reach);
    size = ground (arith, u.size);
  }

  blank_entry : (j : ℕ) → entry (blank ∷ []) j ≡ blank
  blank_entry zero = refl
  blank_entry (suc j) = refl

  -- Beyond the end the list is as if it had a blank entry more.
  from_blank :
      (R : A → A → Type 0) (i : ℕ) (ys : List A) → IsUpdate R i (blank ∷ []) ys → IsUpdate R i [] ys
  from_blank R i ys u = record {
    value = u.value;
    made = subst (λ x. R x u.value) (blank_entry i) u.made;
    here = u.here;
    elsewhere = λ j ne. u.elsewhere j ne ∙ blank_entry j;
    reach = u.reach;
    size = ground (arith, u.size, u.reach);
  }

  pub update_at-assigned :
      (f : A → Outcome A) (R : A → A → Type 0)
      → ((x y : A) → f x ≡ assigned y → R x y)
      → (i : ℕ) (xs ys : List A) → update_at blank i f xs ≡ assigned ys
      → IsUpdate R i xs ys
  unfolding update_at
  update_at-assigned f R r zero [] ys h = elim (Outcome-cases (f blank)) [
    | inl (y, e) ↦
        subst (IsUpdate R zero []) (ground arith)
          (from_blank R zero (y ∷ []) (here-IsUpdate R blank y [] (r blank y e)))
    | inr (inl (why, e)) ↦ ground arith
    | inr (inr e) ↦ ground arith
  ]
  update_at-assigned f R r zero (x ∷ xs) ys h = elim (Outcome-cases (f x)) [
    | inl (y, e) ↦
        subst (IsUpdate R zero (x ∷ xs)) (ground arith) (here-IsUpdate R x y xs (r x y e))
    | inr (inl (why, e)) ↦ ground arith
    | inr (inr e) ↦ ground arith
  ]
  update_at-assigned f R r (suc i) [] ys h = elim (Outcome-cases (update_at blank i f [])) [
    | inl (zs, e) ↦ subst (IsUpdate R (suc i) []) (ground arith) (
        from_blank R (suc i) (blank ∷ zs)
          (later-IsUpdate R i blank [] zs (update_at-assigned f R r i [] zs e)))
    | inr (inl (why, e)) ↦ ground arith
    | inr (inr e) ↦ ground arith
  ]
  update_at-assigned f R r (suc i) (x ∷ xs) ys h = elim (Outcome-cases (update_at blank i f xs)) [
    | inl (zs, e) ↦
        subst (IsUpdate R (suc i) (x ∷ xs)) (ground arith)
          (later-IsUpdate R i x xs zs (update_at-assigned f R r i xs zs e))
    | inr (inl (why, e)) ↦ ground arith
    | inr (inr e) ↦ ground arith
  ]

  update_at-ne-panicked :
      (f : A → Outcome A) (i : ℕ) (xs : List A)
      → ((x : A) → f x ≢ panicked)
      → update_at blank i f xs ≢ panicked
  unfolding update_at
  update_at-ne-panicked f zero [] h e = ground (arith, h blank)
  update_at-ne-panicked f zero (x ∷ xs) h e = ground (arith, h x)
  update_at-ne-panicked f (suc i) [] h e = ground (arith, update_at-ne-panicked f i [] h)
  update_at-ne-panicked f (suc i) (x ∷ xs) h e = ground (arith, update_at-ne-panicked f i xs h)

set_nats_field-ne-panicked : (key val : String) (n : Nats) → set_nats_field key val n ≢ panicked
unfolding set_nats_field
set_nats_field-ne-panicked key val n = ground arith

-- A variable `NATS__<index>__<key>` that is applied, with an index from 0 on, has assigned the field
-- whose tag is its key in lower case: that field holds its value, as a text or as the number that it
-- stands for, and the other fields of the cluster and the other clusters are as before. Clusters that
-- were missing before it are blank.
pub apply_nats-IsUpdate :
    (index key val : String) (rest : List String) (ns ms : List Nats) (i : ℕ)
    → atoi index ≡ some (pos i)
    → apply_nats (index ∷ key ∷ rest) val ns ≡ assigned ms
    → IsUpdate blank_nats (Sets (to_lower key) val) i ns ms
unfolding apply_nats at_index
apply_nats-IsUpdate index key val rest ns ms i e h =
    update_at-assigned blank_nats (set_nats_field (to_lower key) val) (Sets (to_lower key) val)
      (λ n m. set_nats_field-Sets val n m (to_lower key)) i ns ms (ground arith)

-- The overlay of a variable `NATS__<index>__<key>` panics exactly when its index is a negative number.
pub apply_nats-panicked_iff :
    (index key val : String) (rest : List String) (ns : List Nats)
    → (apply_nats (index ∷ key ∷ rest) val ns ≡ panicked)
      ↔ ((n : ℕ) × (atoi index ≡ some (negsuc n)))
unfolding apply_nats at_index
apply_nats-panicked_iff index key val rest ns = elim (Option-cases (atoi index)) [
  | inl e ↦ (λ h. ground arith, λ (n, h). ground arith)
  | inr (pos i, e) ↦ (
    λ h. absurd (
        update_at-ne-panicked blank_nats (set_nats_field (to_lower key) val) i ns
          (set_nats_field-ne-panicked (to_lower key) val) (ground arith)),
    λ (n, h). ground arith,
  )
  | inr (negsuc i, e) ↦ (λ h. (i, e), λ (n, h). ground arith)
]
