-- ===== src/Gateway/Tenancy/Headers.antt =====
-- What the two middlewares read from the headers.
-- How often a header is present, its name being compared in lower case, and its first value.
use evaggregator.Gateway.Tenancy.{Outside, header_dict}
use evaggregator.Base.{
  Bool-cases, List, Option, Option-cases, [], arith, if◌then◌else◌, inl, inr, nat_eq, none, some,
  suc, ℕ, ◌==◌, ◌∙◌, ◌∷◌, ◌≡◌, ◌≤◌,
}
use evaggregator.Base.Dict.{Dict, insert, lookup, lookup-insert}

abbrev pub occurrences : (ℕ → ℕ) → ℕ → List (ℕ × ℕ) → ℕ
occurrences lower name [] = 0
occurrences lower name ((k, v) ∷ hs) =
    let rest = occurrences lower name hs in if lower k == name then suc rest else rest

abbrev pub first_value : (ℕ → ℕ) → ℕ → List (ℕ × ℕ) → Option ℕ
first_value lower name [] = none
first_value lower name ((k, v) ∷ hs) =
    let rest = first_value lower name hs in if lower k == name then some v else rest

-- Starlette's documented behaviour on a header that is not repeated.
abbrev pub latin_value : Outside → Option ℕ → Option ℕ
latin_value o none = none
latin_value o (some v) = some (o.latin1 v)

abbrev pub IsHeaders : Outside → Type 0
IsHeaders o =
    (hs : List (ℕ × ℕ)) (name : ℕ)
    → occurrences o.lower name hs ≤ 1
    → o.get hs name ≡ latin_value o (first_value o.lower name hs)

abbrev pub read_or : Outside → Option ℕ → Option ℕ → Option ℕ
read_or o none before = before
read_or o (some v) before = o.utf8 v

header_dict-absent :
    (o : Outside) (name : ℕ) (hs : List (ℕ × ℕ)) (d m : Dict ℕ ℕ)
    → occurrences o.lower name hs ≡ 0
    → header_dict o hs d ≡ some m
    → lookup name m ≡ lookup name d
unfolding header_dict
header_dict-absent o name [] d m h e = ground (arith, e)
header_dict-absent o name ((k, v) ∷ hs) d m h e = elim (Option-cases (o.utf8 v)) [
  | inl f ↦ ground (arith, e, f)
  | inr (x, f) ↦
      header_dict-absent o name hs (insert (o.lower k) x d) m (ground (arith, h))
        (ground (arith, e, f))
      ∙ ground (arith, h, lookup-insert (o.lower k) name x d)
]

pub header_dict-first :
    (o : Outside) (name : ℕ) (hs : List (ℕ × ℕ)) (d m : Dict ℕ ℕ)
    → occurrences o.lower name hs ≤ 1
    → header_dict o hs d ≡ some m
    → lookup name m ≡ read_or o (first_value o.lower name hs) (lookup name d)
unfolding header_dict
header_dict-first o name [] d m h e = ground (arith, e)
header_dict-first o name ((k, v) ∷ hs) d m h e = elim (Option-cases (o.utf8 v)) [
  | inl f ↦ ground (arith, e, f)
  | inr (x, f) ↦ elim (Bool-cases (o.lower k == name)) [
    | inl y ↦
        header_dict-absent o name hs (insert (o.lower k) x d) m (ground (arith, h, y))
          (ground (arith, e, f))
        ∙ ground (arith, f, y, lookup-insert (o.lower k) name x d)
    | inr y ↦
        header_dict-first o name hs (insert (o.lower k) x d) m (ground (arith, h, y))
          (ground (arith, e, f))
        ∙ ground (arith, f, y, lookup-insert (o.lower k) name x d)
  ]
]
