-- ===== src/Auth/Samples.antt =====
-- A session of one user, for token.rs and composite.rs.
use flare_server_core.Prelude.{◌≡◌, refl, true, false, none, some, [], ◌∷◌, ok}
use flare_server_core.Auth.Scopes.{scope_matches}
use flare_server_core.Prelude.Texts.{trim, trim_start, trim_end, strip_suffix}
use flare_server_core.Auth.{
  Jwt, TokenClaims, TokenStore, TokenService, generate_token, CompositeTokenValidator,
}

abbrev answers_always : TokenStore
answers_always = record { register = λ user_id jti ttl. ok tt; is_revoked = λ jti. ok false }

abbrev service : TokenService
service = record {
  secret = "secret";
  issuer = "flare-im-core";
  ttl = 3600;
  store = some answers_always;
}

abbrev validator : CompositeTokenValidator
validator = record { primary = service; trusted = record { issuer = "s"; secret = "s" } ∷ [] }

abbrev claims : TokenClaims
claims = record {
  sub = "user-1";
  iss = "flare-im-core";
  exp = 4600;
  iat = 1000;
  jti = "id-1";
  device_id = some "device-1";
  tenant_id = none;
}

-- A codec that knows one token.
abbrev one_token : Jwt
one_token = record { encode = λ secret c. ok "t1"; decode = λ secret issuer now token. ok claims }

issued : generate_token one_token service 1000 "id-1" "user-1" (some "device-1") none ≡ ok "t1"
unfolding generate_token
issued = refl

scope_below : scope_matches " admin:* " "admin:users" ≡ true
unfolding scope_matches trim trim_start trim_end strip_suffix
scope_below = refl

scope_beside : scope_matches "admin:*" "administrator" ≡ false
unfolding scope_matches trim trim_start trim_end strip_suffix
scope_beside = refl
