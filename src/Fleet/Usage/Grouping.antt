-- ===== src/Fleet/Usage/Grouping.antt =====
-- Buckets of usage: `grouped.setdefault(key, zeros)` followed by `+=` on each field, as both the
-- rollup and the report do it, and what the buckets add up to.
use evaggregator.Base.{
  Bool, Bool-cases, KeyEq, List, [], ap, false, filter_by, if◌then◌else◌, inl, inr, map, nat_eq,
  sym, true, ◌==◌, ◌∙◌, ◌∷◌, ◌≡◌,
}
use evaggregator.Base.Dict.{Dict, update_default, values}
use evaggregator.Base.Int.{+ℤ-zero, +ℤ_assoc, +ℤ_comm, pos, zero-+ℤ, ℤ, ◌+ℤ◌}

pub record Totals : Type 0 where
  pub session_count : ℤ
  pub kwh_total : ℤ
  pub cost_total_minor_units : ℤ

abbrev pub zero_totals : Totals
zero_totals = record { session_count = pos 0; kwh_total = pos 0; cost_total_minor_units = pos 0 }

abbrev pub add_totals : Totals → Totals → Totals
add_totals a b = record {
  session_count = a.session_count +ℤ b.session_count;
  kwh_total = a.kwh_total +ℤ b.kwh_total;
  cost_total_minor_units = a.cost_total_minor_units +ℤ b.cost_total_minor_units;
}

abbrev pub sum_totals : List Totals → Totals
sum_totals [] = zero_totals
sum_totals (t ∷ ts) = add_totals t (sum_totals ts)

pub add_totals_comm : (a b : Totals) → add_totals a b ≡ add_totals b a
add_totals_comm a b = cc (
  +ℤ_comm a.session_count b.session_count,
  +ℤ_comm a.kwh_total b.kwh_total,
  +ℤ_comm a.cost_total_minor_units b.cost_total_minor_units,
)

pub add_totals_assoc :
    (a b c : Totals) → add_totals (add_totals a b) c ≡ add_totals a (add_totals b c)
add_totals_assoc a b c = simp +ℤ_assoc

pub add_totals-zero : (a : Totals) → add_totals a zero_totals ≡ a
add_totals-zero a = simp +ℤ-zero

pub zero-add_totals : (a : Totals) → add_totals zero_totals a ≡ a
zero-add_totals a = simp zero-+ℤ

add_totals_right_comm :
    (a b c : Totals) → add_totals (add_totals a b) c ≡ add_totals (add_totals a c) b
add_totals_right_comm a b c =
    add_totals_assoc a b c ∙ ap (add_totals a) (add_totals_comm b c) ∙ sym (add_totals_assoc a c b)

module _ {K : Type 0} ⦃e : KeyEq K⦄ where
  abbrev pub add_to_bucket : K → Totals → Dict K Totals → Dict K Totals
  add_to_bucket k t d = update_default k zero_totals (λ u. add_totals u t) d

  module _ {X : Type 0} (key : X → K) (amount : X → Totals) where
    abbrev pub group_from : List X → Dict K Totals → Dict K Totals
    group_from [] d = d
    group_from (x ∷ xs) d = group_from xs (add_to_bucket (key x) (amount x) d)

  sum_totals-add_to_bucket :
      (k : K) (t : Totals) (d : Dict K Totals)
      → sum_totals (values (add_to_bucket k t d)) ≡ add_totals (sum_totals (values d)) t
  sum_totals-add_to_bucket k t [] = add_totals-zero _
  sum_totals-add_to_bucket k t ((j, u) ∷ d) = elim (Bool-cases (j == k)) [
    | inl e ↦ rw (e) (add_totals_right_comm u t _)
    | inr e ↦
        rw (e) (ap (add_totals u) (sum_totals-add_to_bucket k t d) ∙ sym (add_totals_assoc u _ t))
  ]

  module _ {X : Type 0} (key : X → K) (amount : X → Totals) where
    -- Whatever the keys, the buckets add up to what went in.
    pub sum_totals-group_from :
        (xs : List X) (d : Dict K Totals)
        → sum_totals (values (group_from key amount xs d))
          ≡ add_totals (sum_totals (values d)) (sum_totals (map amount xs))
    sum_totals-group_from [] d = sym (add_totals-zero _)
    sum_totals-group_from (x ∷ xs) d =
        sum_totals-group_from xs (add_to_bucket (key x) (amount x) d)
        ∙ ap (λ t. add_totals t (sum_totals (map amount xs)))
            (sum_totals-add_to_bucket (key x) (amount x) d)
        ∙ add_totals_assoc _ _ _

-- The totals of the buckets whose key passes a test.
abbrev pub sum_where {ℓ} : {K : Type ℓ} → (K → Bool) → Dict K Totals → Totals
sum_where p [] = zero_totals
sum_where p ((k, t) ∷ d) = let rest = sum_where p d in if p k then add_totals t rest else rest

module _ {K : Type 0} ⦃e : KeyEq K⦄ (p : K → Bool) where
  sum_where-hit :
      (k : K) (t : Totals) (d : Dict K Totals)
      → p k ≡ true
      → sum_where p (add_to_bucket k t d) ≡ add_totals (sum_where p d) t
  sum_where-hit k t [] h = rw h (add_totals-zero _)
  sum_where-hit k t ((j, u) ∷ d) h = elim (Bool-cases (j == k)) [
    | inl same ↦
        let pj : p j ≡ true = ap p ((e.agree_iff j k).0 same) ∙ h in
        rw (same, pj) (add_totals_right_comm u t _)
    | inr new ↦ elim (Bool-cases (p j)) [
      | inl y ↦
          rw (new, y) (ap (add_totals u) (sum_where-hit k t d h) ∙ sym (add_totals_assoc u _ t))
      | inr n ↦ rw (new, n) (sum_where-hit k t d h)
    ]
  ]

  sum_where-miss :
      (k : K) (t : Totals) (d : Dict K Totals)
      → p k ≡ false
      → sum_where p (add_to_bucket k t d) ≡ sum_where p d
  sum_where-miss k t [] h = rw h
  sum_where-miss k t ((j, u) ∷ d) h = elim (Bool-cases (j == k)) [
    | inl same ↦ let pj : p j ≡ false = ap p ((e.agree_iff j k).0 same) ∙ h in rw (same, pj)
    | inr new ↦ elim (Bool-cases (p j)) [
      | inl y ↦ rw (new, y) (ap (add_totals u) (sum_where-miss k t d h))
      | inr n ↦ rw (new, n) (sum_where-miss k t d h)
    ]
  ]

  module _ {X : Type 0} (key : X → K) (amount : X → Totals) where
    -- The buckets that pass a test on their key add up to the items whose key passes it.
    pub sum_where-group_from :
        (xs : List X) (d : Dict K Totals)
        → sum_where p (group_from key amount xs d)
          ≡ add_totals (sum_where p d) (sum_totals (map amount (filter_by (λ x. p (key x)) xs)))
    sum_where-group_from [] d = sym (add_totals-zero _)
    sum_where-group_from (x ∷ xs) d = elim (Bool-cases (p (key x))) [
      | inl y ↦ rw y (
          sum_where-group_from xs (add_to_bucket (key x) (amount x) d)
          ∙ ap (λ t. add_totals t (sum_totals (map amount (filter_by (λ x. p (key x)) xs))))
              (sum_where-hit (key x) (amount x) d y)
          ∙ add_totals_assoc _ _ _)
      | inr n ↦ rw n (
          sum_where-group_from xs (add_to_bucket (key x) (amount x) d)
          ∙ ap (λ t. add_totals t (sum_totals (map amount (filter_by (λ x. p (key x)) xs))))
              (sum_where-miss (key x) (amount x) d n))
    ]
