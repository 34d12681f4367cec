-- ===== src/Billing/Promotions/UsageLimit.antt =====
-- A promotion is never redeemed more often than its limit.
use evaggregator.Billing.Promotions.{
  Promotion, PromotionStore, RedemptionStore, count_redemptions, get_by_code, record_redemption,
  redeem_promo_code, redeem_promotion,
}
use evaggregator.Base.{
  Bool-cases, List, Option-cases, [], arith, if◌then◌else◌, inl, inr, nat_beq_iff, nat_eq, some, ℕ,
  ◌++◌, ◌+◌, ◌==◌, ◌∷◌, ◌≡◌, ◌≤◌,
}

pub record Attempt : Type 0 where
  pub code : ℕ
  pub session : ℕ
  pub now : ℕ

abbrev pub redeem_all : PromotionStore → List Attempt → RedemptionStore → RedemptionStore
redeem_all s [] rs = rs
redeem_all s (a ∷ rest) rs = redeem_all s rest (redeem_promo_code s a.code a.session a.now rs).1

-- Every stored promotion with the id `p` has the limit `limit`.
pub record HasLimit (p limit : ℕ) (s : PromotionStore) : Type 0 where
  pub at_code :
      (code : ℕ) (x : Promotion)
      → get_by_code code s ≡ some x
      → x.id ≡ p
      → x.usage_limit ≡ some limit

count_redemptions-append :
    (p : ℕ) (rs us : RedemptionStore)
    → count_redemptions p (rs ++ us) ≡ count_redemptions p rs + count_redemptions p us
unfolding count_redemptions
count_redemptions-append p [] us = omega arith
count_redemptions-append p ((q, x) ∷ rs) us = omega (arith, count_redemptions-append p rs us)

count-record :
    (p q x : ℕ) (rs : RedemptionStore)
    → count_redemptions p (record_redemption q x rs)
      ≡ count_redemptions p rs + (if q == p then 1 else 0)
unfolding record_redemption count_redemptions
count-record p q x rs = omega (arith, count_redemptions-append p rs ((q, x) ∷ []))

redeem_promotion-le :
    (p limit : ℕ) (x : Promotion) (session now : ℕ) (rs : RedemptionStore)
    → (x.id ≡ p → x.usage_limit ≡ some limit)
    → count_redemptions p rs ≤ limit
    → count_redemptions p (redeem_promotion x session now rs).1 ≤ limit
unfolding redeem_promotion
redeem_promotion-le p limit x session now rs lim h = elim (Bool-cases (x.id == p)) [
  | inl e ↦
      let id_is = (nat_beq_iff x.id p).0 e in
      ground (arith, lim id_is, count-record p x.id session rs)
  | inr e ↦ ground (arith, count-record p x.id session rs)
]

redeem_promo_code-le :
    (p limit : ℕ) (s : PromotionStore) (a : Attempt) (rs : RedemptionStore)
    → HasLimit p limit s
    → count_redemptions p rs ≤ limit
    → count_redemptions p (redeem_promo_code s a.code a.session a.now rs).1 ≤ limit
unfolding redeem_promo_code
redeem_promo_code-le p limit s a rs lim h = elim (Option-cases (get_by_code a.code s)) [
  | inl e ↦ rw (e, redeem_promo_code) h
  | inr (x, e) ↦
      rw (e, redeem_promo_code)
        (redeem_promotion-le p limit x a.session a.now rs (lim.at_code a.code x e) h)
]

-- Whatever codes are tried, in whatever order and at whatever time, the redemptions recorded for a
-- promotion with a usage limit never pass the limit.
pub redemptions-le-limit :
    (p limit : ℕ) (s : PromotionStore) (tries : List Attempt) (rs : RedemptionStore)
    → HasLimit p limit s
    → count_redemptions p rs ≤ limit
    → count_redemptions p (redeem_all s tries rs) ≤ limit
redemptions-le-limit p limit s [] rs lim h = h
redemptions-le-limit p limit s (a ∷ rest) rs lim h =
    redemptions-le-limit p limit s rest (redeem_promo_code s a.code a.session a.now rs).1 lim
      (redeem_promo_code-le p limit s a rs lim h)
