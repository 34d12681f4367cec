-- ===== src/Identity/Accounts/Unique.antt =====
-- An email has one account.
use evaggregator.Identity.Text.{Text, normalized, text_beq, text_beq_iff, text_eq}
use evaggregator.Identity.Accounts.{
  DriverAccount, DriverAccountStore, NewAccount, account_of, create, find_by_email, get_account,
}
use evaggregator.Base.{Bool-cases, Option-cases, arith, inl, inr, nat_eq, none, some, ℕ, ◌≡◌}
use evaggregator.Base.Dict.{contains, insert, lookup, lookup-insert}

-- The two maps of the store agree.
pub record IsIndexed (s : DriverAccountStore) : Type 0 where
  pub listed :
      (i : ℕ) (a : DriverAccount)
      → lookup i s.by_id ≡ some a
      → lookup a.email s.id_by_email ≡ some i
  pub known :
      (e : Text) (i : ℕ)
      → lookup e s.id_by_email ≡ some i
      → (a : DriverAccount) × (lookup i s.by_id ≡ some a) × (a.email ≡ e)

-- Accounts created one after the other, each under a new id.
pub data Run (derive : ℕ → ℕ → ℕ) (s : DriverAccountStore) : DriverAccountStore → Type 0 where
  here : Run derive s s
  next :
      {t : DriverAccountStore}
      → Run derive s t
      → (n : NewAccount) → lookup n.id t.by_id ≡ none
      → Run derive s (create derive n t).1

module _ (derive : ℕ → ℕ → ℕ) (n : NewAccount) (s : DriverAccountStore) (h : IsIndexed s) where
  added : DriverAccountStore
  added = record {
    by_id = insert n.id (account_of derive n) s.by_id;
    id_by_email = insert (normalized n.email) n.id s.id_by_email;
  }

  added-listed :
      lookup (normalized n.email) s.id_by_email ≡ none
      → (i : ℕ) (a : DriverAccount) → lookup i added.by_id ≡ some a
      → lookup a.email added.id_by_email ≡ some i
  unfolding added
  added-listed e i a p = ground (
    arith,
    p,
    e,
    lookup-insert n.id i (account_of derive n) s.by_id,
    lookup-insert (normalized n.email) a.email n.id s.id_by_email,
    h.listed i a,
    text_beq_iff (normalized n.email) a.email,
  )

  added-known :
      lookup n.id s.by_id ≡ none
      → (e : Text) (i : ℕ) → lookup e added.id_by_email ≡ some i
      → (a : DriverAccount) × (lookup i added.by_id ≡ some a) × (a.email ≡ e)
  unfolding added
  added-known fresh e i q =
      let found = lookup-insert (normalized n.email) e n.id s.id_by_email in
      elim (Bool-cases (text_beq (normalized n.email) e)) [
        | inl b ↦ (
          account_of derive n,
          ground (arith, b, q, found, lookup-insert n.id i (account_of derive n) s.by_id),
          (text_beq_iff (normalized n.email) e).0 b,
        )
        | inr b ↦
            let (a, p, same) = h.known e i (ground (arith, b, q, found)) in
            (a, ground (arith, p, fresh, lookup-insert n.id i (account_of derive n) s.by_id), same)
      ]

create-IsIndexed :
    (derive : ℕ → ℕ → ℕ) (n : NewAccount) (s : DriverAccountStore)
    → lookup n.id s.by_id ≡ none
    → IsIndexed s
    → IsIndexed (create derive n s).1
unfolding create added
create-IsIndexed derive n s fresh h =
    elim (Option-cases (lookup (normalized n.email) s.id_by_email)) [
      | inr (j, e) ↦ rw (e, create, contains) h
      | inl e ↦
          rw (e, create, contains)
            (record {
              listed = added-listed derive n s h e;
              known = added-known derive n s h fresh;
            })
    ]

Run-IsIndexed :
    (derive : ℕ → ℕ → ℕ) {s t : DriverAccountStore} → Run derive s t → IsIndexed s → IsIndexed t
Run-IsIndexed derive here h = h
Run-IsIndexed derive (next r n fresh) h =
    create-IsIndexed derive n _ fresh (Run-IsIndexed derive r h)

-- After any signups that draw new ids, no two accounts have the same email, and the account of an email
-- is found by every spelling of it, with spaces around it or in capitals.
pub email_has_one_account :
    (derive : ℕ → ℕ → ℕ) {s t : DriverAccountStore}
    → Run derive s t
    → IsIndexed s
    → ((i j : ℕ) (a b : DriverAccount)
        → get_account i t ≡ some a
        → get_account j t ≡ some b
        → a.email ≡ b.email
        → i ≡ j)
      × ((i : ℕ) (a : DriverAccount) (spelling : Text)
          → get_account i t ≡ some a
          → normalized spelling ≡ a.email
          → find_by_email spelling t ≡ some a)
unfolding find_by_email
email_has_one_account derive run start =
    let h = Run-IsIndexed derive run start in
    (
      λ i j a b p q same. ground (arith, same, h.listed i a p, h.listed j b q),
      λ i a spelling p same. ground (arith, same, p, h.listed i a p),
    )
