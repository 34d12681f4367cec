-- ===== src/Roaming/Partners.antt =====
-- backend/src/evagg/ocpi/partner_store.py and versions.py: the roaming partners, and the handshake
-- that gives a partner its token.
pub mod Handshake
use evaggregator.Base.{
  Bool, Exec, List, Option, Result, [], err, false, if◌then◌else◌, nat_eq, none, ok, some, true, ℕ,
  ◌==◌, ◌∷◌,
}
use evaggregator.Base.Dict.{Dict, insert, lookup, values}

pub data PartnerStatus : Type 0 where
  pending connected suspended : PartnerStatus

pub data Version : Type 0 where
  v211 v221 v230 : Version
  other_version : ℕ → Version

pub record Partner : Type 0 where
  pub id : ℕ
  pub tenant_id : ℕ
  pub party_id : ℕ
  pub country_code : ℕ
  pub token_a : ℕ
  pub token_c : Option ℕ
  pub negotiated_version : Option Version
  pub status : PartnerStatus
  pub last_handshake_at : Option ℕ

abbrev pub PartnerRegistry : Type 0
PartnerRegistry = Dict ℕ Partner

abbrev pub new_partner : ℕ → ℕ → ℕ → ℕ → ℕ → Partner
new_partner id tenant party country token = record {
  id = id;
  tenant_id = tenant;
  party_id = party;
  country_code = country;
  token_a = token;
  token_c = none;
  negotiated_version = none;
  status = pending;
  last_handshake_at = none;
}

pub add_partner : Partner → PartnerRegistry → PartnerRegistry
add_partner p s = insert p.id p s

pub create : ℕ → ℕ → ℕ → ℕ → ℕ → PartnerRegistry → Partner × PartnerRegistry
create id tenant party country token s = (
  new_partner id tenant party country token,
  insert id (new_partner id tenant party country token) s,
)

-- `next((p for p in ps if test(p)), None)`
abbrev pub first_by : (Partner → Bool) → List Partner → Option Partner
first_by test [] = none
first_by test (p ∷ ps) = if test p then some p else first_by test ps

abbrev pub has_token : ℕ → Option ℕ → Bool
has_token token none = false
has_token token (some t) = t == token

pub find_by_token_a : ℕ → PartnerRegistry → Option Partner
find_by_token_a token s = first_by (λ p. p.token_a == token) (values s)

pub find_by_token_c : ℕ → PartnerRegistry → Option Partner
find_by_token_c token s = first_by (λ p. has_token token p.token_c) (values s)

abbrev pub connect_partner : Version → ℕ → ℕ → Partner → Partner
connect_partner version token now p = record p {
  negotiated_version = some version;
  token_c = some token;
  status = connected;
  last_handshake_at = some now;
}

-- `self._partners[partner_id]` raises on an id that is not there.
pub set_negotiated_version : ℕ → Version → ℕ → ℕ → PartnerRegistry → Option PartnerRegistry
set_negotiated_version id version token now s = elim (lookup id s) [
  | none ↦ none
  | some p ↦ some (insert id (connect_partner version token now p) s)
]

pub rotate_token_a : ℕ → ℕ → PartnerRegistry → Option PartnerRegistry
rotate_token_a id token s = elim (lookup id s) [
  | none ↦ none
  | some p ↦ some (insert id (record p { token_a = token }) s)
]

pub list_all : PartnerRegistry → List Partner
list_all s = values s

pub data OcpiError : Type 0 where
  unsupported_version unknown_token missing_partner : OcpiError

abbrev pub is_supported : Version → Bool
is_supported v211 = true
is_supported v221 = true
is_supported v230 = true
is_supported (other_version v) = false

abbrev pub issued :
    ℕ → Option PartnerRegistry → PartnerRegistry → Result OcpiError ℕ × PartnerRegistry
issued token none s = (err missing_partner, s)
issued token (some s') s = (ok token, s')

-- The fresh token_c is an argument.
pub negotiate_credentials : ℕ → Version → ℕ → ℕ → Exec OcpiError PartnerRegistry ℕ
negotiate_credentials token_a version fresh now s =
    if is_supported version
    then elim (find_by_token_a token_a s) [
      | none ↦ (err unknown_token, s)
      | some p ↦ issued fresh (set_negotiated_version p.id version fresh now s) s
    ]
    else (err unsupported_version, s)

pub authenticate_partner : ℕ → PartnerRegistry → Result OcpiError ℕ
authenticate_partner token s = elim (find_by_token_c token s) [
  | none ↦ err unknown_token
  | some p ↦ ok p.id
]
