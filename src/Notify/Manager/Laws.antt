-- ===== src/Notify/Manager/Laws.antt =====
-- Which configurations the notifier accepts, and which subscriptions are open.
use cheshmhayash.Common.{
  ℕ, ◌+◌, ◌≡◌, ◌≢◌, ◌↔◌, sym, ◌∙◌, inl, inr, ◌⊎◌, true, String, List, [], ◌∷◌, ◌++◌, map, All,
  arith, eq_iff, Bool-cases, ◌==◌,
}
use mathlib.Core.List.{append-nil, append_assoc}
use cheshmhayash.Common.Text.{mem}
use cheshmhayash.Auth.{Result, ok, err}
use mathlib.Core.Path.{subst}
use cheshmhayash.Auth.Session.Laws.{Result-cases}
use cheshmhayash.Notify.{ProviderConfig}
use cheshmhayash.Notify.Webhook.{Webhook, new_webhook}
use cheshmhayash.Notify.Manager.{provider_names, add_providers, new}

-- An entry that names a known provider and a URL.
abbrev pub IsEntry : ProviderConfig → Type 0
IsEntry c =
    (c.url ≢ "") × ((c.provider ≡ "slack") ⊎ (c.provider ≡ "mattermost") ⊎ (c.provider ≡ "matrix"))

-- Either every entry is one, and there is a webhook for each in order, or some is not and New fails.
abbrev Outcome : List ProviderConfig → List Webhook → Result (List Webhook) → Type 0
Outcome cfgs before (ok providers) = All IsEntry cfgs × (providers ≡ before ++ map new_webhook cfgs)
Outcome cfgs before (err e) = ¬ All IsEntry cfgs

known_iff :
    (p : String)
    → (mem provider_names p ≡ true) ↔ ((p ≡ "slack") ⊎ (p ≡ "mattermost") ⊎ (p ≡ "matrix"))
unfolding mem
known_iff p = ground (arith, eq_iff "slack" p, eq_iff "mattermost" p, eq_iff "matrix" p)

step :
    (c : ProviderConfig) (cs : List ProviderConfig) (before : List Webhook)
    (o : Result (List Webhook))
    → c.url ≢ ""
    → (c.provider ≡ "slack") ⊎ (c.provider ≡ "mattermost") ⊎ (c.provider ≡ "matrix")
    → Outcome cs (before ++ (new_webhook c ∷ [])) o
    → Outcome (c ∷ cs) before o
step c cs before (ok providers) u p (h, e) =
    (((u, p), h), e ∙ append_assoc before (new_webhook c ∷ []) (map new_webhook cs))
step c cs before (err e) u p h = λ (_, k). h k

add_providers-Outcome :
    (quote : String → String) (i : ℕ) (cfgs : List ProviderConfig) (before : List Webhook)
    → Outcome cfgs before (add_providers quote i cfgs before)
unfolding add_providers
add_providers-Outcome quote i [] before = (tt, sym (append-nil before))
add_providers-Outcome quote i (c ∷ cs) before = elim (Bool-cases (c.url == "")) [
  | inl bare ↦ rw bare λ h. h.0.0 ((eq_iff c.url "").0 bare)
  | inr full ↦ elim (Bool-cases (mem provider_names c.provider)) [
    | inl known ↦
        rw (full, known)
          (step c cs before _ (ground (arith, full, eq_iff c.url ""))
            ((known_iff c.provider).0 known)
            (add_providers-Outcome quote (i + 1) cs (before ++ (new_webhook c ∷ []))))
    | inr strange ↦
        let unknown : ¬ All IsEntry (c ∷ cs) =
          λ h. ground (arith, strange, (known_iff c.provider).1 h.0.1) in
        elim (Bool-cases (c.provider == "")) [
          | inl blank ↦ rw (full, strange, blank) unknown
          | inr other ↦ rw (full, strange, other) unknown
        ]
  ]
]

-- New accepts exactly the configurations in which every entry names a known provider and a URL, and
-- then has a webhook for each entry, in order, and no subscription.
pub new_cases :
    (quote : String → String) (cfgs : List ProviderConfig)
    → (All IsEntry cfgs
        × (new quote cfgs ≡ ok (record { providers = map new_webhook cfgs; subs = [] })))
      ⊎ ((¬ All IsEntry cfgs) × (why : String) × (new quote cfgs ≡ err why))
unfolding new
new_cases quote cfgs = elim (Result-cases (add_providers quote 0 cfgs [])) [
  | inl (why, e) ↦
      inr
        (subst (Outcome cfgs []) e (add_providers-Outcome quote 0 cfgs []), why, ground (arith, e))
  | inr (providers, e) ↦
      let (h, same) = subst (Outcome cfgs []) e (add_providers-Outcome quote 0 cfgs []) in
      inl (h, ground (arith, e, same))
]
