-- ===== src/Fleet/Visibility/Access.antt =====
-- The map query returns exactly what the driver may see.
use evaggregator.Fleet.Visibility.{
  BoundingBox, ChargerAccessRepository, ChargerSummary, authorized_team_ids, everyone, intersects,
  is_outside, is_public, list_chargers, query_visible_chargers, visible_from,
}
use evaggregator.Fleet.Invites.{DriverTeamMembership, MembershipStore, list_team_ids_for_driver}
use evaggregator.Base.{
  Bool, Bool-cases, List, Option, [], any_by, ap, arith, false, if◌then◌else◌, inl, inr,
  nat_beq_iff, nat_eq, not, refl, subst, sym, true, ℕ, ◌&&◌, ◌==◌, ◌||◌, ◌↔◌, ◌∙◌, ◌∷◌, ◌≡◌, ◌⊎◌,
}

-- An element of a list.
abbrev pub Member : {A : Type 0} → A → List A → Type 0
Member x [] = ⊥
Member x (y ∷ ys) = (x ≡ y) ⊎ Member x ys

-- A team that the driver belongs to.
pub record IsOnTeam (driver team : ℕ) (ms : MembershipStore) : Type 0 where
  pub membership : DriverTeamMembership
  pub held : Member membership ms
  pub driver_is : membership.driver_id ≡ driver
  pub team_is : membership.team_id ≡ team

module _ {C : Type 0} (leq : C → C → Bool) (driver : ℕ) (bbox : Option (BoundingBox C)) where
  -- The charger lies in the box that was asked for, if any, and is public or granted to a team
  -- that the driver belongs to.
  pub record MaySee (c : ChargerSummary C) (r : ChargerAccessRepository C) (ms : MembershipStore)
      : Type 0 where
    pub inside : is_outside leq bbox c ≡ false
    pub open_to :
        (c.visibility ≡ everyone)
        ⊎ ((team : ℕ) × Member team (authorized_team_ids c.id r) × IsOnTeam driver team ms)

-- The list with one more element if the test holds.
abbrev keep_if : {A : Type 0} → Bool → A → List A → List A
keep_if b x l = if b then x ∷ l else l

Member-keep_if :
    {A : Type 0} (b : Bool) (c x : A) (l : List A)
    → Member c (keep_if b x l)
    → ((c ≡ x) × (b ≡ true)) ⊎ Member c l
Member-keep_if true c x l (inl e) = inl (e, refl)
Member-keep_if true c x l (inr m) = inr m
Member-keep_if false c x l m = inr m

keep_if-tail :
    {A : Type 0} (b : Bool) (c x : A) (l : List A) → Member c l → Member c (keep_if b x l)
keep_if-tail true c x l m = inr m
keep_if-tail false c x l m = m

Member-any_by : (x : ℕ) (xs : List ℕ) → any_by (λ y. y == x) xs ≡ true → Member x xs
Member-any_by x [] h = cc
Member-any_by x (y ∷ ys) h = elim (Bool-cases (y == x)) [
  | inl e ↦ inl (ground arith)
  | inr e ↦ inr (Member-any_by x ys (ground arith))
]

any_by-Member : (x : ℕ) (xs : List ℕ) → Member x xs → any_by (λ y. y == x) xs ≡ true
any_by-Member x [] h = absurd h
any_by-Member x (y ∷ ys) (inl e) = ground arith
any_by-Member x (y ∷ ys) (inr m) = ground (arith, any_by-Member x ys m)

intersects_sound :
    (teams mine : List ℕ) → intersects teams mine ≡ true → (t : ℕ) × Member t teams × Member t mine
intersects_sound [] mine h = cc
intersects_sound (t ∷ ts) mine h = elim (Bool-cases (any_by (λ m. m == t) mine)) [
  | inl e ↦ (t, inl refl, Member-any_by t mine e)
  | inr e ↦ let (u, a, b) = intersects_sound ts mine (ground arith) in (u, inr a, b)
]

intersects_complete :
    (t : ℕ) (teams mine : List ℕ) → Member t teams → Member t mine → intersects teams mine ≡ true
intersects_complete t [] mine h k = absurd h
intersects_complete t (u ∷ us) mine (inl e) k =
    ground (arith, any_by-Member u mine (subst (λ x. Member x mine) e k))
intersects_complete t (u ∷ us) mine (inr m) k = ground (arith, intersects_complete t us mine m k)

later :
    {driver team : ℕ} {ms : MembershipStore} (m : DriverTeamMembership)
    → IsOnTeam driver team ms
    → IsOnTeam driver team (m ∷ ms)
later m h = record {
  membership = h.membership;
  held = inr h.held;
  driver_is = h.driver_is;
  team_is = h.team_is;
}

first_team :
    (driver team : ℕ) (m : DriverTeamMembership) (ms : MembershipStore)
    → m.driver_id ≡ driver
    → (Member team (list_team_ids_for_driver driver ms) → IsOnTeam driver team ms)
    → Member team (m.team_id ∷ list_team_ids_for_driver driver ms)
    → IsOnTeam driver team (m ∷ ms)
first_team driver team m ms d rest (inl e) = record {
  membership = m;
  held = inl refl;
  driver_is = d;
  team_is = sym e;
}
first_team driver team m ms d rest (inr k) = later m (rest k)

team_ids_sound :
    (driver team : ℕ) (ms : MembershipStore)
    → Member team (list_team_ids_for_driver driver ms)
    → IsOnTeam driver team ms
unfolding list_team_ids_for_driver
team_ids_sound driver team [] h = absurd h
team_ids_sound driver team (m ∷ ms) h = elim (Bool-cases (m.driver_id == driver)) [
  | inl e ↦
      first_team driver team m ms ((nat_beq_iff _ _).0 e) (team_ids_sound driver team ms)
        (rw e at h)
  | inr e ↦ later m (team_ids_sound driver team ms (rw e at h))
]

Member-team :
    (driver : ℕ) (m : DriverTeamMembership) (ms : MembershipStore)
    → Member m ms
    → m.driver_id ≡ driver
    → Member m.team_id (list_team_ids_for_driver driver ms)
unfolding list_team_ids_for_driver
Member-team driver m [] h d = absurd h
Member-team driver m (x ∷ ms) (inl e) d = ground arith
Member-team driver m (x ∷ ms) (inr k) d = elim (Bool-cases (x.driver_id == driver)) [
  | inl e ↦ rw e (inr (Member-team driver m ms k d))
  | inr e ↦ rw e (Member-team driver m ms k d)
]

team_ids_complete :
    (driver team : ℕ) (ms : MembershipStore)
    → IsOnTeam driver team ms
    → Member team (list_team_ids_for_driver driver ms)
team_ids_complete driver team ms h =
    subst (λ t. Member t (list_team_ids_for_driver driver ms)) h.team_is
      (Member-team driver h.membership ms h.held h.driver_is)

module _ {C : Type 0} (leq : C → C → Bool) (driver : ℕ) (bbox : Option (BoundingBox C)) where
  -- the test that the loop makes of a charger
  abbrev shows : List ℕ → ChargerAccessRepository C → ChargerSummary C → Bool
  shows mine r c =
      not (is_outside leq bbox c)
      && (is_public c.visibility || intersects (authorized_team_ids c.id r) mine)

  MaySee-of_shows :
      (c : ChargerSummary C) (r : ChargerAccessRepository C) (ms : MembershipStore)
      → shows (list_team_ids_for_driver driver ms) r c ≡ true
      → MaySee leq driver bbox c r ms
  MaySee-of_shows c r ms h =
      let mine = list_team_ids_for_driver driver ms in
      elim (Bool-cases (is_public c.visibility)) [
        | inl e ↦ record { inside = ground arith; open_to = inl (ground arith) }
        | inr e ↦
            let (t, a, b) = intersects_sound (authorized_team_ids c.id r) mine (ground arith) in
            record { inside = ground arith; open_to = inr (t, a, team_ids_sound driver t ms b) }
      ]

  shows_of_open :
      (c : ChargerSummary C) (r : ChargerAccessRepository C) (ms : MembershipStore)
      → is_outside leq bbox c ≡ false
      → (c.visibility ≡ everyone)
        ⊎ ((team : ℕ) × Member team (authorized_team_ids c.id r) × IsOnTeam driver team ms)
      → shows (list_team_ids_for_driver driver ms) r c ≡ true
  shows_of_open c r ms h (inl e) = ground arith
  shows_of_open c r ms h (inr (t, a, b)) =
      let mine = list_team_ids_for_driver driver ms in
      ground (
        arith,
        intersects_complete t (authorized_team_ids c.id r) mine a (team_ids_complete driver t ms b),
      )

  visible_from-cons :
      (x : ChargerSummary C) (mine : List ℕ) (r : ChargerAccessRepository C)
      (cs : List (ChargerSummary C))
      → visible_from leq mine bbox r (x ∷ cs) ≡ (
          if shows mine r x
          then x ∷ visible_from leq mine bbox r cs
          else visible_from leq mine bbox r cs)
  unfolding visible_from
  visible_from-cons x mine r cs = ground arith

  visible_from_sound :
      (c : ChargerSummary C) (mine : List ℕ) (r : ChargerAccessRepository C)
      (cs : List (ChargerSummary C))
      → Member c (visible_from leq mine bbox r cs)
      → Member c cs × (shows mine r c ≡ true)
  unfolding visible_from
  visible_from_sound c mine r [] h = absurd h
  visible_from_sound c mine r (x ∷ cs) h =
      elim (Member-keep_if (shows mine r x) c x (visible_from leq mine bbox r cs)
        (subst (Member c) (visible_from-cons x mine r cs) h)) [
          | inl (same, e) ↦ (inl same, ap (shows mine r) same ∙ e)
          | inr m ↦ let (a, b) = visible_from_sound c mine r cs m in (inr a, b)
        ]

  visible_from_complete :
      (c : ChargerSummary C) (mine : List ℕ) (r : ChargerAccessRepository C)
      (cs : List (ChargerSummary C))
      → Member c cs
      → shows mine r c ≡ true
      → Member c (visible_from leq mine bbox r cs)
  visible_from_complete c mine r [] h e = absurd h
  visible_from_complete c mine r (x ∷ cs) (inl h) e =
      rw (visible_from-cons x mine r cs, ← ap (shows mine r) h, e) (inl h)
  visible_from_complete c mine r (x ∷ cs) (inr h) e =
      rw (visible_from-cons x mine r cs)
        (keep_if-tail (shows mine r x) c x _ (visible_from_complete c mine r cs h e))

  -- A charger is in the answer exactly if it is registered, lies in the box that was asked for (if
  -- any), and is public or granted to a team that the driver belongs to.
  pub visible_exact :
      (c : ChargerSummary C) (r : ChargerAccessRepository C) (ms : MembershipStore)
      → Member c (query_visible_chargers leq driver bbox r ms)
        ↔ (Member c (list_chargers r) × MaySee leq driver bbox c r ms)
  unfolding query_visible_chargers
  visible_exact c r ms =
      let mine = list_team_ids_for_driver driver ms in
      (
        λ h.
            let (a, b) = visible_from_sound c mine r (list_chargers r) h in
            (a, MaySee-of_shows c r ms b),
        λ h.
            visible_from_complete c mine r (list_chargers r) h.0
              (shows_of_open c r ms h.1.inside h.1.open_to),
      )
