-- ===== src/Auth.antt =====
-- flare-core-infra/src/auth: token.rs, composite.rs and provider.rs. The JSON web tokens are another
-- package's: `encode` and `decode` are parameters, and `decode` gives the claims of a token that has
-- the signature of the secret and the issuer and is not expired. The store of tokens is a trait: its
-- answers are arguments. Times are in seconds.
pub mod Scopes
pub mod Sessions
mod Samples
use flare_server_core.Prelude.{
  ℕ, ◌+◌, ◌%◌, ◌^◌, max, Bool, true, false, ◌||◌, not, Option, none, some, String, List, [], ◌∷◌,
  ◌++◌, Result, ok, err, StringMap, format, if◌then◌else◌,
}
use flare_server_core.Prelude.Int.{ℤ, as_i64}
use flare_server_core.Prelude.Texts.{is_empty, trim}
use flare_server_core.Auth.Scopes.{AuthenticatedPrincipal}

pub record TokenClaims : Type 0 where
  pub sub : String
  pub iss : String
  pub exp : ℕ
  pub iat : ℕ
  pub jti : String
  pub device_id : Option String
  pub tenant_id : Option String

-- The functions `encode` and `decode` of jsonwebtoken, at the time of the call.
pub record Jwt : Type 0 where
  pub encode : (secret : String) → TokenClaims → Result String String
  pub decode : (secret issuer : String) → (now : ℕ) → String → Result TokenClaims String

-- TokenStore, as it answers the calls of the token service
pub record TokenStore : Type 0 where
  pub register : (user_id jti : String) → (ttl : ℕ) → Result {0, 0} Unit String
  pub is_revoked : (jti : String) → Result Bool String

pub record TokenService : Type 0 where
  pub secret : String
  pub issuer : String
  pub ttl : ℕ
  pub store : Option TokenStore

-- TokenService::new
unfoldable pub new_service : String → String → ℕ → TokenService
new_service secret issuer ttl_seconds = record {
  secret = secret;
  issuer = issuer;
  ttl = max ttl_seconds 60;
  store = none;
}

-- TokenService::with_store
unfoldable pub with_store : TokenService → TokenStore → TokenService
with_store t store = record t { store = some store }

-- The claims of a new token, at the time `now` and with a new identifier.
unfoldable pub new_claims :
    TokenService → (now : ℕ) (jti : String) → String → Option String → Option String → TokenClaims
new_claims t now jti user_id device_id tenant_id = record {
  sub = user_id;
  iss = t.issuer;
  exp = now + t.ttl;
  iat = now;
  jti = jti;
  device_id = device_id;
  tenant_id = tenant_id;
}

unfoldable pub after_register : String → Result {0, 0} Unit String → Result String String
after_register token (ok _) = ok token
after_register token (err e) = err e

unfoldable pub register_token :
    TokenService → Option TokenStore → TokenClaims → String → Result String String
unfolding after_register
register_token t none c token = ok token
register_token t (some store) c token = after_register token (store.register c.sub c.jti t.ttl)

unfoldable pub issue_token :
    TokenService → TokenClaims → Result String String → Result String String
unfolding register_token
issue_token t c (err e) = err (format ("failed to encode token: " ∷ e ∷ []))
issue_token t c (ok token) = register_token t t.store c token

-- TokenService::generate_token
unfoldable pub generate_token :
    Jwt
    → TokenService
    → (now : ℕ) (jti : String) → String
    → Option String
    → Option String
    → Result String String
unfolding new_claims issue_token
generate_token jwt t now jti user_id device_id tenant_id =
    let c = new_claims t now jti user_id device_id tenant_id in
    issue_token t c (jwt.encode t.secret c)

unfoldable pub unless_revoked : TokenClaims → Result Bool String → Result TokenClaims String
unless_revoked c (ok true) = err "token revoked"
unless_revoked c (ok false) = ok c
unless_revoked c (err e) = err e

unfoldable pub check_store : Option TokenStore → TokenClaims → Result TokenClaims String
unfolding unless_revoked
check_store none c = ok c
check_store (some store) c = unless_revoked c (store.is_revoked c.jti)

unfoldable pub check_claims :
    Option TokenStore → Result TokenClaims String → Result TokenClaims String
unfolding check_store
check_claims store (err e) = err (format ("invalid token: " ∷ e ∷ []))
check_claims store (ok c) = check_store store c

-- TokenService::validate_token
unfoldable pub validate_token : Jwt → TokenService → (now : ℕ) → String → Result TokenClaims String
unfolding check_claims
validate_token jwt t now token = check_claims t.store (jwt.decode t.secret t.issuer now token)

pub record TrustedIssuer : Type 0 where
  pub issuer : String
  pub secret : String

named_error : TrustedIssuer → Result TokenClaims String → Result TokenClaims String
named_error i (ok c) = ok c
named_error i (err e) = err (format ("invalid token for issuer " ∷ i.issuer ∷ ": " ∷ e ∷ []))

-- TrustedIssuer::validate
unfoldable pub trusted_validate :
    Jwt → TrustedIssuer → (now : ℕ) → String → Result TokenClaims String
unfolding named_error
trusted_validate jwt i now token = named_error i (jwt.decode i.secret i.issuer now token)

pub record CompositeTokenValidator : Type 0 where
  pub primary : TokenService
  pub trusted : List TrustedIssuer

-- The trusted issuers in turn, after the last error.
try_trusted :
    Jwt → List TrustedIssuer → (now : ℕ) → String → (last : String) → Result TokenClaims String
unfolding trusted_validate
try_trusted jwt [] now token last = err last
try_trusted jwt (i ∷ rest) now token last = elim (trusted_validate jwt i now token) [
  | ok c ↦ ok c
  | err e ↦ try_trusted jwt rest now token e
]

unfoldable pub or_trusted :
    Jwt
    → List TrustedIssuer
    → (now : ℕ) → String
    → Result TokenClaims String
    → Result TokenClaims String
unfolding try_trusted
or_trusted jwt trusted now token (ok c) = ok c
or_trusted jwt trusted now token (err e) =
    try_trusted jwt trusted now token "token validation failed"

-- CompositeTokenValidator::validate_token
unfoldable pub composite_validate :
    Jwt → CompositeTokenValidator → (now : ℕ) → String → Result TokenClaims String
unfolding or_trusted validate_token
composite_validate jwt v now token =
    or_trusted jwt v.trusted now token (validate_token jwt v.primary now token)

-- AuthenticatedPrincipal::from_token_claims
unfoldable pub from_token_claims : TokenClaims → AuthenticatedPrincipal
from_token_claims c = record {
  user_id = c.sub;
  tenant_id = c.tenant_id;
  device_id = c.device_id;
  app_id = none;
  expires_at = some (as_i64 c.exp);
  scopes = [];
  metadata = [];
}

pub data AuthError : Type 0 where
  missing_token : AuthError
  invalid_token forbidden provider_unavailable : String → AuthError

unfoldable pub to_principal : Result TokenClaims String → Result AuthenticatedPrincipal AuthError
unfolding from_token_claims
to_principal (ok c) = ok (from_token_claims c)
to_principal (err e) = err (invalid_token e)

-- CoreJwtTokenValidator::validate
unfoldable pub core_jwt_validate :
    Jwt → CompositeTokenValidator → (now : ℕ) → String → Result AuthenticatedPrincipal AuthError
unfolding composite_validate to_principal
core_jwt_validate jwt v now token = to_principal (composite_validate jwt v now token)

-- The answer of an authentication hook.
pub record HookValidationResponse : Type 0 where
  pub active : Bool
  pub user_id : Option String
  pub tenant_id : Option String
  pub device_id : Option String
  pub app_id : Option String
  pub expires_at : Option ℤ
  pub scopes : List String
  pub metadata : StringMap String

not_blank : Option String → Option String
not_blank none = none
not_blank (some s) = if is_empty (trim s) then none else some s

hook_principal : HookValidationResponse → Option String → Result AuthenticatedPrincipal AuthError
unfolding not_blank
hook_principal r none =
    err (provider_unavailable "auth hook returned active principal without user_id")
hook_principal r (some user_id) = ok (record {
  user_id = trim user_id;
  tenant_id = not_blank r.tenant_id;
  device_id = not_blank r.device_id;
  app_id = not_blank r.app_id;
  expires_at = r.expires_at;
  scopes = r.scopes;
  metadata = r.metadata;
})

-- HookValidationResponse::into_principal
unfoldable pub into_principal : HookValidationResponse → Result AuthenticatedPrincipal AuthError
unfolding hook_principal not_blank
into_principal r =
    if r.active
    then hook_principal r (not_blank r.user_id)
    else err (invalid_token "auth hook returned inactive token")

pub record TrustedIssuerConfig : Type 0 where
  pub issuer : String
  pub secret : String

push_trusted :
    List TrustedIssuerConfig → CompositeTokenValidator → Result CompositeTokenValidator String
push_trusted [] v = ok v
push_trusted (c ∷ cs) v =
    let issuer = trim c.issuer in
    let secret = trim c.secret in
    let rest =
      push_trusted cs
        (record v { trusted = v.trusted ++ record { issuer = issuer; secret = secret } ∷ [] }) in
    if is_empty issuer || is_empty secret
    then err "trusted token issuer and secret cannot be empty"
    else rest

-- build_core_jwt_token_validator
unfoldable pub build_core_jwt_token_validator :
    TokenService → List TrustedIssuerConfig → Result CompositeTokenValidator String
unfolding push_trusted
build_core_jwt_token_validator primary issuers =
    push_trusted issuers (record { primary = primary; trusted = [] })
