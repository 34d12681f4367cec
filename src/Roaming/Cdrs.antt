-- ===== src/Roaming/Cdrs.antt =====
-- backend/src/evagg/ocpi/cdr.py: charge records, made once per session and pushed once per partner.
-- A record's content besides its id is a number; the factory of a record is a parameter.
pub mod Once
mod Examples
use evaggregator.Base.{
  Bool, List, [], any_by, if◌then◌else◌, nat_eq, none, some, ℕ, ◌&&◌, ◌++◌, ◌==◌, ◌∷◌,
}
use evaggregator.Base.Dict.{Dict, insert, lookup}

pub record OcpiCdr : Type 0 where
  pub id : ℕ
  pub content : ℕ

-- The store, what the push client has sent, and the keys that it was sent under.
pub record CdrService : Type 0 where
  pub by_session : Dict ℕ OcpiCdr
  pub sent : List (ℕ × ℕ)
  pub pushed : List (ℕ × ℕ)

-- The factory runs only if the session has no record yet.
unfoldable pub generate_cdr : (Unit {0} → OcpiCdr) → ℕ → CdrService → OcpiCdr × CdrService
generate_cdr factory session s = elim (lookup session s.by_session) [
  | some existing ↦ (existing, s)
  | none ↦ (factory tt, record s { by_session = insert session (factory tt) s.by_session })
]

abbrev pub is_pushed : ℕ → ℕ → List (ℕ × ℕ) → Bool
is_pushed partner cdr l = any_by (λ k. (k.0 == partner) && (k.1 == cdr)) l

pub push_cdr : ℕ → OcpiCdr → CdrService → CdrService
push_cdr partner cdr s = if is_pushed partner cdr.id s.pushed then s else record s {
  sent = s.sent ++ (partner, cdr.id) ∷ [];
  pushed = s.pushed ++ (partner, cdr.id) ∷ [];
}
