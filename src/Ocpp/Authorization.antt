-- ===== src/Ocpp/Authorization.antt =====
-- backend/src/evagg/ocpp_gateway/authorize.py and backend/src/evagg/ocpi/tokens.py: the local list of
-- tags, and the fallback to the cache of roaming tokens.
pub mod Roaming
use evaggregator.Base.{Option, if◌then◌else◌, leb, nat_eq, none, some, ℕ, ◌+◌}
use evaggregator.Base.Dict.{Dict, erase, insert, lookup}

pub data AuthStatus : Type 0 where
  accepted blocked expired invalid : AuthStatus

abbrev pub LocalIdTagStore : Type 0
LocalIdTagStore = Dict ℕ AuthStatus

pub set_local_status : ℕ → AuthStatus → LocalIdTagStore → LocalIdTagStore
set_local_status tag status s = insert tag status s

abbrev pub lookup_tag : ℕ → LocalIdTagStore → Option AuthStatus
lookup_tag tag s = lookup tag s

pub data TokenStatus : Type 0 where
  whitelisted blacklisted : TokenStatus

-- token uid -> (status, expires_at)
abbrev pub TokenCache : Type 0
TokenCache = Dict ℕ (TokenStatus × ℕ)

pub set_status : ℕ → TokenStatus → ℕ → ℕ → TokenCache → TokenCache
set_status uid status ttl now c = insert uid (status, now + ttl) c

-- An expired entry is dropped when it is read.
pub get_status : ℕ → ℕ → TokenCache → Option TokenStatus × TokenCache
get_status uid now c = elim (lookup uid c) [
  | none ↦ (none, c)
  | some (status, expires_at) ↦ if leb expires_at now then (none, erase uid c) else (some status, c)
]

pub refresh_ttl : ℕ → ℕ → ℕ → TokenCache → TokenCache
refresh_ttl uid ttl now c = elim (lookup uid c) [
  | none ↦ c
  | some (status, _) ↦ insert uid (status, now + ttl) c
]

pub expires_at : ℕ → TokenCache → Option ℕ
expires_at uid c = elim (lookup uid c) [ none ↦ none | some (_, at) ↦ some at ]

pub whitelist_token : ℕ → ℕ → ℕ → TokenCache → TokenCache
unfolding set_status
whitelist_token ttl uid now c = set_status uid whitelisted ttl now c

pub blacklist_token : ℕ → ℕ → ℕ → TokenCache → TokenCache
unfolding set_status
blacklist_token ttl uid now c = set_status uid blacklisted ttl now c

-- `OcpiRoamingTokenChecker.check`; the clock is read for the look-up and again for the refresh.
unfoldable pub check : ℕ → ℕ → ℕ → ℕ → TokenCache → AuthStatus × TokenCache
unfolding get_status refresh_ttl
check ttl tag read refreshed c =
    let (status, c') = get_status tag read c in
    elim status [
      | none ↦ (invalid, c')
      | some blacklisted ↦ (blocked, c')
      | some whitelisted ↦ (accepted, refresh_ttl tag ttl refreshed c')
    ]

-- `Authorizer.authorize` over any roaming checker, whose own state is `T`
module _ {T : Type 0} (roaming_check : ℕ → T → AuthStatus × T) where
  unfoldable pub authorize : ℕ → LocalIdTagStore → T → AuthStatus × T
  authorize tag s t = elim (lookup_tag tag s) [
    | none ↦ roaming_check tag t
    | some status ↦ (status, t)
  ]
