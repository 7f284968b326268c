-- ===== src/Auth/Sessions.antt =====
-- A token of token.rs from its issue to the principal, and its revocation.
use flare_server_core.Prelude.{
  ℕ, ◌≤◌, ◌≡◌, refl, ap, ◌∙◌, Bool, true, false, Option, none, some, String, Result, ok, err,
}
use flare_server_core.Auth.{
  Jwt, TokenClaims, TokenStore, TokenService, check_store, check_claims, validate_token,
  unless_revoked,
}

-- A token that encodes claims is decoded to them with the same secret, for their issuer and before
-- they expire.
abbrev pub Decodes : Jwt → String → TokenClaims → ℕ → Type 0
Decodes jwt secret c later =
    (token : String)
    → jwt.encode secret c ≡ ok token
    → later ≤ c.exp
    → jwt.decode secret c.iss later token ≡ ok c

-- What the store answers for the identifier of a token, where there is a store.
abbrev pub revoked_at : Option TokenStore → String → Result Bool String
revoked_at none jti = ok false
revoked_at (some store) jti = store.is_revoked jti

check_store-revoked_at :
    (store : Option TokenStore) (c : TokenClaims)
    → check_store store c ≡ unless_revoked c (revoked_at store c.jti)
unfolding check_store unless_revoked
check_store-revoked_at none c = refl
check_store-revoked_at (some store) c = refl

-- A decoded token is valid, revoked, or unknown, as the store answers.
validate_token-decoded :
    (jwt : Jwt) (t : TokenService) (later : ℕ) (c : TokenClaims) (token : String)
    → jwt.decode t.secret t.issuer later token ≡ ok c
    → validate_token jwt t later token ≡ unless_revoked c (revoked_at t.store c.jti)
unfolding validate_token check_claims
validate_token-decoded jwt t later c token decoded =
    ap (check_claims t.store) decoded ∙ check_store-revoked_at t.store c

-- A token of the primary service whose identifier the store has as revoked is refused by it.
pub validate_token_revoked :
    (jwt : Jwt) (t : TokenService) (later : ℕ) (c : TokenClaims) (token : String)
    → jwt.decode t.secret t.issuer later token ≡ ok c
    → revoked_at t.store c.jti ≡ ok true
    → validate_token jwt t later token ≡ err "token revoked"
unfolding unless_revoked
validate_token_revoked jwt t later c token decoded revoked =
    validate_token-decoded jwt t later c token decoded ∙ ap (unless_revoked c) revoked
