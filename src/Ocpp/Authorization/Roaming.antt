-- ===== src/Ocpp/Authorization/Roaming.antt =====
-- How long a roaming token is honoured, and that the local list comes first.
use evaggregator.Ocpp.Authorization.{
  AuthStatus, LocalIdTagStore, TokenCache, TokenStatus, accepted, authorize, blacklisted, blocked,
  check, invalid, lookup_tag, whitelisted,
}
use evaggregator.Base.{
  All, List, Option, [], arith, if◌then◌else◌, leb, nat_eq, none, some, ℕ, ◌+◌, ◌<◌, ◌∷◌, ◌≡◌, ◌≢◌,
}
use evaggregator.Base.Dict.{lookup, lookup-insert_self}

-- The checks of a tag at the given pairs of instants, and the answers.
module _ (ttl tag : ℕ) where
  abbrev pub check_all : List (ℕ × ℕ) → TokenCache → List AuthStatus
  check_all [] c = []
  check_all ((read, refreshed) ∷ rest) c =
      (check ttl tag read refreshed c).0 ∷ check_all rest (check ttl tag read refreshed c).1

  -- Each look-up comes before the entry that the last refresh left expires.
  abbrev pub InTime : ℕ → List (ℕ × ℕ) → Type 0
  InTime expires [] = Unit
  InTime expires ((read, refreshed) ∷ rest) = (read < expires) × InTime (refreshed + ttl) rest

  check_live :
      (read refreshed expires : ℕ) (c : TokenCache)
      → lookup tag c ≡ some (whitelisted, expires)
      → read < expires
      → ((check ttl tag read refreshed c).0 ≡ accepted)
        × (lookup tag (check ttl tag read refreshed c).1 ≡ some (whitelisted, refreshed + ttl))
  unfolding check
  check_live read refreshed expires c e h =
      ground (arith, lookup-insert_self tag (whitelisted, refreshed + ttl) c)

  -- A whitelisted token that is checked again and again, each time before the time to live since
  -- the last check is over, is accepted every time, however long the session lasts.
  pub roaming_session_kept :
      (times : List (ℕ × ℕ)) (expires : ℕ) (c : TokenCache)
      → lookup tag c ≡ some (whitelisted, expires)
      → InTime expires times
      → All (λ s. s ≡ accepted) (check_all times c)
  roaming_session_kept [] expires c e h = tt
  roaming_session_kept ((read, refreshed) ∷ rest) expires c e h =
      let (a, b) = check_live read refreshed expires c e h.0 in
      (a, roaming_session_kept rest (refreshed + ttl) (check ttl tag read refreshed c).1 b h.1)

-- What a tag is answered, from the local list and the cache's entry: the local status, if there is
-- one; or else invalid without an entry that is still alive, and blocked or accepted by its status.
abbrev pub verdict : Option AuthStatus → Option (TokenStatus × ℕ) → ℕ → AuthStatus
verdict (some status) entry now = status
verdict none none now = invalid
verdict none (some (whitelisted, at)) now = if leb at now then invalid else accepted
verdict none (some (blacklisted, at)) now = if leb at now then invalid else blocked

-- The authorizer with the roaming checker gives that verdict; and it leaves the cache alone for a
-- tag that the local list knows.
pub authorize-verdict :
    (ttl tag read refreshed : ℕ) (s : LocalIdTagStore) (c : TokenCache)
    → ((authorize (λ t. check ttl t read refreshed) tag s c).0
        ≡ verdict (lookup_tag tag s) (lookup tag c) read)
      × (lookup_tag tag s ≢ none → (authorize (λ t. check ttl t read refreshed) tag s c).1 ≡ c)
unfolding authorize check
authorize-verdict ttl tag read refreshed s c = ground arith
