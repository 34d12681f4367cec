-- ===== src/Ocpp/Presence/Sweeps.antt =====
-- What a sweep takes offline and publishes.
use evaggregator.Ocpp.Presence.{
  PresenceRegistry, PresenceState, check_and_expire_heartbeats, expire, expire_if_stale, get_state,
  is_stale, mark_offline, taken_offline,
}
use evaggregator.Ocpp.Events.{EventPublisher, publish_disconnected}
use evaggregator.Base.{
  All, All-append, All-imp, Bool, Bool-cases, List, Option-cases, [], arith, false, inl, inr,
  nat_eq, refl, some, subst, sym, true, ℕ, ◌++◌, ◌==◌, ◌∷◌, ◌≡◌, ◌⊎◌,
}
use evaggregator.Base.Dict.{lookup, lookup-insert, lookup-insert_self}
use mathlib.Core.List.{append-nil, append_assoc}

-- All chargers are looked at as they were before the sweep.
abbrev pub stale_in : ℕ → ℕ → PresenceRegistry → ℕ → Bool
stale_in interval now s charger = is_stale interval now (get_state charger s)

abbrev pub members : List (ℕ × ℕ) → List ℕ
members [] = []
members ((t, c) ∷ ps) = c ∷ members ps

members-append : (a b : List (ℕ × ℕ)) → members (a ++ b) ≡ members a ++ members b
members-append [] b = refl
members-append ((t, c) ∷ a) b = rw (members-append a b) refl

-- Taking one charger offline leaves the state of the others.
lookup-mark_offline :
    (c j : ℕ) (s : PresenceRegistry)
    → (c == j) ≡ false
    → get_state j (mark_offline c s) ≡ get_state j s
unfolding mark_offline
lookup-mark_offline c j s other = elim (Option-cases (lookup c s)) [
  | inl e ↦ ground arith
  | inr (p, e) ↦ ground (arith, lookup-insert c j (taken_offline p) s)
]

-- A charger that was taken offline is not stale any more.
offline_not_stale :
    (interval now c : ℕ) (s : PresenceRegistry) → stale_in interval now (mark_offline c s) c ≡ false
unfolding mark_offline
offline_not_stale interval now c s = elim (Option-cases (lookup c s)) [
  | inl e ↦ ground arith
  | inr (p, e) ↦ ground (arith, lookup-insert_self c (taken_offline p) s)
]

-- Whatever is not stale stays so when a charger is taken offline.
stale-mark_offline :
    (interval now c j : ℕ) (s : PresenceRegistry)
    → stale_in interval now s j ≡ false
    → stale_in interval now (mark_offline c s) j ≡ false
stale-mark_offline interval now c j s h = elim (Bool-cases (c == j)) [
  | inl same ↦
      let eq : c ≡ j = ground arith in
      subst (λ x. stale_in interval now (mark_offline c s) x ≡ false) eq
        (offline_not_stale interval now c s)
  | inr other ↦ ground (arith, lookup-mark_offline c j s other)
]

-- Either the charger is not stale and nothing happens, or it is and is taken offline.
expire-cases :
    (interval now c : ℕ) (s : PresenceRegistry) (e : EventPublisher)
    → ((stale_in interval now s c ≡ false) × (expire_if_stale interval now c (s, e) ≡ ([], (s, e))))
      ⊎ ((p : PresenceState) × (stale_in interval now s c ≡ true)
          × (expire_if_stale interval now c (s, e)
              ≡ (c ∷ [], (mark_offline c s, publish_disconnected p.tenant_id c e))))
unfolding expire_if_stale expire
expire-cases interval now c s e = elim (Option-cases (lookup c s)) [
  | inl n ↦ inl (ground arith, rw (n, expire_if_stale) refl)
  | inr (p, f) ↦ elim (Bool-cases (is_stale interval now (some p))) [
    | inl y ↦ inr (p, ground arith, rw (f, y, expire_if_stale) refl)
    | inr n ↦ inl (ground arith, rw (f, n, expire_if_stale) refl)
  ]
]

stale-expire_if_stale :
    (interval now c j : ℕ) (s : PresenceRegistry) (e : EventPublisher)
    → stale_in interval now s j ≡ false
    → stale_in interval now (expire_if_stale interval now c (s, e)).1.0 j ≡ false
stale-expire_if_stale interval now c j s e h = elim (expire-cases interval now c s e) [
  | inl (_, r) ↦ rw (r) h
  | inr (p, _, r) ↦ rw (r) (stale-mark_offline interval now c j s h)
]

quiet_after :
    (interval now c : ℕ) (s : PresenceRegistry) (e : EventPublisher)
    → stale_in interval now (expire_if_stale interval now c (s, e)).1.0 c ≡ false
quiet_after interval now c s e = elim (expire-cases interval now c s e) [
  | inl (n, r) ↦ rw (r) n
  | inr (p, _, r) ↦ rw (r) (offline_not_stale interval now c s)
]

quiet_stays :
    (interval now j : ℕ) (ids : List ℕ) (st : PresenceRegistry × EventPublisher)
    → stale_in interval now st.0 j ≡ false
    → stale_in interval now (check_and_expire_heartbeats interval now ids st).1.0 j ≡ false
unfolding check_and_expire_heartbeats
quiet_stays interval now j [] st h = h
quiet_stays interval now j (c ∷ cs) (s, e) h =
    quiet_stays interval now j cs (expire_if_stale interval now c (s, e)).1
      (stale-expire_if_stale interval now c j s e h)

left_quiet :
    (interval now : ℕ) (ids : List ℕ) (st : PresenceRegistry × EventPublisher)
    → All
        (λ j. stale_in interval now (check_and_expire_heartbeats interval now ids st).1.0 j ≡ false)
        ids
unfolding check_and_expire_heartbeats
left_quiet interval now [] st = tt
left_quiet interval now (c ∷ cs) (s, e) = (
  quiet_stays interval now c cs (expire_if_stale interval now c (s, e)).1
      (quiet_after interval now c s e),
  left_quiet interval now cs (expire_if_stale interval now c (s, e)).1,
)

head_stale :
    (interval now c : ℕ) (s : PresenceRegistry) (e : EventPublisher)
    → All (λ j. stale_in interval now s j ≡ true) (expire_if_stale interval now c (s, e)).0
head_stale interval now c s e = elim (expire-cases interval now c s e) [
  | inl (_, r) ↦ rw (r, All) tt
  | inr (p, y, r) ↦ rw (r, All) (y, tt)
]

stale_before :
    (interval now c j : ℕ) (s : PresenceRegistry) (e : EventPublisher)
    → stale_in interval now (expire_if_stale interval now c (s, e)).1.0 j ≡ true
    → stale_in interval now s j ≡ true
stale_before interval now c j s e h = elim (Bool-cases (stale_in interval now s j)) [
  | inl y ↦ y
  | inr n ↦ ground (arith, stale-expire_if_stale interval now c j s e n)
]

-- A charger that the rest of a sweep reports was stale before it.
reported_stale :
    (interval now : ℕ) (ids : List ℕ) (st : PresenceRegistry × EventPublisher)
    → All
        (λ j. stale_in interval now st.0 j ≡ true)
        (check_and_expire_heartbeats interval now ids st).0
unfolding check_and_expire_heartbeats
reported_stale interval now [] st = tt
reported_stale interval now (c ∷ cs) (s, e) =
    All-append (λ j. stale_in interval now s j ≡ true) (expire_if_stale interval now c (s, e)).0
      (check_and_expire_heartbeats interval now cs (expire_if_stale interval now c (s, e)).1).0
      (head_stale interval now c s e)
      (All-imp (λ j h. stale_before interval now c j s e h)
        (check_and_expire_heartbeats interval now cs (expire_if_stale interval now c (s, e)).1).0
        (reported_stale interval now cs (expire_if_stale interval now c (s, e)).1))

members_published :
    (interval now c : ℕ) (s : PresenceRegistry) (e : EventPublisher)
    → members (expire_if_stale interval now c (s, e)).1.1.disconnected
      ≡ members e.disconnected ++ (expire_if_stale interval now c (s, e)).0
unfolding publish_disconnected
members_published interval now c s e = elim (expire-cases interval now c s e) [
  | inl (_, r) ↦ rw (r) (sym (append-nil (members e.disconnected)))
  | inr (p, _, r) ↦ rw (r) (members-append e.disconnected ((p.tenant_id, c) ∷ []))
]

published_is_reported :
    (interval now : ℕ) (ids : List ℕ) (st : PresenceRegistry × EventPublisher)
    → members (check_and_expire_heartbeats interval now ids st).1.1.disconnected
      ≡ members st.1.disconnected ++ (check_and_expire_heartbeats interval now ids st).0
unfolding check_and_expire_heartbeats
published_is_reported interval now [] st = sym (append-nil (members st.1.disconnected))
published_is_reported interval now (c ∷ cs) (s, e) =
    rw
      (
        published_is_reported interval now cs (expire_if_stale interval now c (s, e)).1,
        members_published interval now c s e,
      )
      (append_assoc (members e.disconnected) (expire_if_stale interval now c (s, e)).0
        (check_and_expire_heartbeats interval now cs (expire_if_stale interval now c (s, e)).1).0)

-- A sweep that finds nothing stale reports nothing and changes nothing.
quiet_sweep :
    (interval now : ℕ) (ids : List ℕ) (st : PresenceRegistry × EventPublisher)
    → All (λ j. stale_in interval now st.0 j ≡ false) ids
    → check_and_expire_heartbeats interval now ids st ≡ ([], st)
unfolding check_and_expire_heartbeats
quiet_sweep interval now [] st h = refl
quiet_sweep interval now (c ∷ cs) (s, e) h = elim (expire-cases interval now c s e) [
  | inl (_, r) ↦ rw (r, check_and_expire_heartbeats, quiet_sweep interval now cs (s, e) h.1) refl
  | inr (p, y, _) ↦ ground (arith, h.0)
]

-- A sweep reports only chargers that were online with no frame for more than two intervals before it,
-- publishes a disconnect for exactly the chargers that it reports, in that order, and leaves none of
-- the chargers that it looked at online and silent for that long.
pub sweep_exact :
    (interval now : ℕ) (ids : List ℕ) (s : PresenceRegistry) (e : EventPublisher)
    → All
        (λ j. stale_in interval now s j ≡ true)
        (check_and_expire_heartbeats interval now ids (s, e)).0
      × ((members (check_and_expire_heartbeats interval now ids (s, e)).1.1.disconnected
            ≡ members e.disconnected ++ (check_and_expire_heartbeats interval now ids (s, e)).0)
          × All
              (λ j.
                stale_in interval now (check_and_expire_heartbeats interval now ids (s, e)).1.0 j
                ≡ false)
              ids)
sweep_exact interval now ids s e = (
  reported_stale interval now ids (s, e),
  (published_is_reported interval now ids (s, e), left_quiet interval now ids (s, e)),
)

-- A second sweep over the same chargers at the same time reports nothing, publishes nothing and
-- changes nothing.
pub second_sweep :
    (interval now : ℕ) (ids : List ℕ) (st : PresenceRegistry × EventPublisher)
    → check_and_expire_heartbeats interval now ids
        (check_and_expire_heartbeats interval now ids st).1
      ≡ ([], (check_and_expire_heartbeats interval now ids st).1)
second_sweep interval now ids st =
    quiet_sweep interval now ids (check_and_expire_heartbeats interval now ids st).1
      (left_quiet interval now ids st)
