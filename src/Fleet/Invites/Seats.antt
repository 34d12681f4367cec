-- ===== src/Fleet/Invites/Seats.antt =====
-- A join code is never redeemed more often than its limit allows.
use evaggregator.Fleet.Invites.{
  InviteRedemptionError, JoinConfig, JoinRequest, JoinState, TeamInvite, check_rate, redeem,
  redeem_invite, take_slot, used,
}
use evaggregator.Base.{
  List, Option-cases, Result, [], arith, err, if◌then◌else◌, inl, inr, nat_eq, ok, refl, some, ℕ,
  ◌+◌, ◌==◌, ◌∷◌, ◌≡◌, ◌≤◌,
}
use evaggregator.Base.Dict.{lookup, lookup-insert}

-- 1 for a redemption of `code` that succeeded.
abbrev pub win : {A : Type 0} → ℕ → JoinRequest → Result InviteRedemptionError A → ℕ
win code q (ok _) = if q.code == code then 1 else 0
win code q (err _) = 0

module _ (c : JoinConfig) where
  -- The state after redemptions in turn, each failing or not.
  abbrev pub redeem_all : List JoinRequest → JoinState → JoinState
  redeem_all [] s = s
  redeem_all (q ∷ qs) s = redeem_all qs (redeem c q s).1

  abbrev pub wins : ℕ → List JoinRequest → JoinState → ℕ
  wins code [] s = 0
  wins code (q ∷ qs) s = win code q (redeem c q s).0 + wins code qs (redeem c q s).1

-- The invite after `n` more uses.
abbrev pub used_by : ℕ → TeamInvite → TeamInvite
used_by n i = record i { used_count = i.used_count + n }

invites-check_rate :
    (c : JoinConfig) (q : JoinRequest) (s : JoinState) → (check_rate c q s).1.invites ≡ s.invites
unfolding check_rate
invites-check_rate c q s = refl

abbrev pub IsSeat : ℕ → TeamInvite → JoinState → ℕ → Type 0
IsSeat code i s n = (lookup code s.invites ≡ some (used_by n i)) × (i.used_count + n ≤ i.max_uses)

take_slot-IsSeat :
    (code : ℕ) (q : JoinRequest) (i x : TeamInvite) (s : JoinState)
    → lookup code s.invites ≡ some i
    → i.used_count ≤ i.max_uses
    → IsSeat code i (take_slot q x s).1 (win code q (take_slot q x s).0)
unfolding take_slot
take_slot-IsSeat code q i x s h fits = elim (Option-cases (lookup q.code s.invites)) [
  | inl e ↦ ground arith
  | inr (y, e) ↦ ground (arith, lookup-insert q.code code (used y) s.invites)
]

redeem_invite-IsSeat :
    (code : ℕ) (q : JoinRequest) (i : TeamInvite) (s : JoinState)
    → lookup code s.invites ≡ some i
    → i.used_count ≤ i.max_uses
    → IsSeat code i (redeem_invite q s).1 (win code q (redeem_invite q s).0)
unfolding redeem_invite
redeem_invite-IsSeat code q i s h fits = elim (Option-cases (lookup q.code s.invites)) [
  | inl e ↦ ground arith
  | inr (y, e) ↦ ground (arith, take_slot-IsSeat code q i y s h fits)
]

redeem-IsSeat :
    (c : JoinConfig) (code : ℕ) (q : JoinRequest) (i : TeamInvite) (s : JoinState)
    → lookup code s.invites ≡ some i
    → i.used_count ≤ i.max_uses
    → IsSeat code i (redeem c q s).1 (win code q (redeem c q s).0)
unfolding redeem
redeem-IsSeat c code q i s h fits =
    ground
      (arith, invites-check_rate c q s, redeem_invite-IsSeat code q i (check_rate c q s).1 h fits)

-- After any redemptions, by any drivers and of any codes, an invite that was within its limit has
-- been used exactly once for each redemption of it that succeeded, it is still within its limit,
-- and nothing else of it has changed.
pub seats_exact :
    (c : JoinConfig) (code : ℕ) (qs : List JoinRequest) (i : TeamInvite) (s : JoinState)
    → lookup code s.invites ≡ some i
    → i.used_count ≤ i.max_uses
    → (lookup code (redeem_all c qs s).invites ≡ some (used_by (wins c code qs s) i))
      × (i.used_count + wins c code qs s ≤ i.max_uses)
seats_exact c code [] i s h fits = ground arith
seats_exact c code (q ∷ qs) i s h fits =
    let one = redeem-IsSeat c code q i s h fits in
    let rest =
      seats_exact c code qs (used_by (win code q (redeem c q s).0) i) (redeem c q s).1 one.0
        one.1 in
    ground (arith, rest.0, rest.1)
