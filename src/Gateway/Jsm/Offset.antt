-- ===== src/Gateway/Jsm/Offset.antt =====
-- The page of a listing that a request asks for.
use cheshmhayash.Common.{ltb, if◌then◌else◌, ℕ, ◌≡◌, ◌^◌, ◌<◌, ◌∙◌, ap, Option, none, some, arith}
use cheshmhayash.Http.{Request}
use cheshmhayash.Natsx.Decimal.{decimal, parse_uint, in_range}
use cheshmhayash.Natsx.Decimal.Laws.{parse_uint-in_range}
use cheshmhayash.Gateway.Jsm.{parse_offset}

or_zero :
    (n : ℕ)
    → (elim (in_range (some n)) as (λ o. ℕ) [ some k ↦ k | none ↦ 0 ])
      ≡ (if ltb n (2 ^ 64) then n else 0)
or_zero n = ground arith

-- A number of at most twenty digits that stands in the query in decimal is the offset if it fits into
-- 64 bits; if it does not, the offset is 0.
pub parse_offset-decimal :
    (r : Request) (n : ℕ)
    → n < 10 ^ 20
    → r.query "offset" ≡ decimal n
    → parse_offset r ≡ (if ltb n (2 ^ 64) then n else 0)
unfolding parse_offset
parse_offset-decimal r n h e =
    ap (λ (o : Option ℕ). elim o [ some k ↦ k | none ↦ 0 ])
      (ap parse_uint e ∙ parse_uint-in_range n h)
    ∙ or_zero n
