-- ===== src/Auth/Scopes.antt =====
-- flare-core-infra/src/auth/principal.rs: an authenticated principal and its scopes.
use text.Mathlib.Text.{starts_with}
use flare_server_core.Prelude.{
  Bool, false, ◌||◌, Option, none, some, String, List, [], ◌∷◌, any, StringMap, str_eq, format,
}
use flare_server_core.Prelude.Int.{ℤ}
use flare_server_core.Prelude.Texts.{trim, strip_suffix}

pub record AuthenticatedPrincipal : Type 0 where
  pub user_id : String
  pub tenant_id : Option String
  pub device_id : Option String
  pub app_id : Option String
  pub expires_at : Option ℤ
  pub scopes : List String
  pub metadata : StringMap String

matches_prefix : Option String → String → Bool
matches_prefix none required = false
matches_prefix (some prefix) required =
    str_eq required prefix || starts_with required (format (prefix ∷ ":" ∷ []))

trimmed_matches : String → String → Bool
unfolding matches_prefix
trimmed_matches granted required =
    str_eq granted "*"
    || str_eq granted required
    || matches_prefix (strip_suffix ":*" granted) required

-- scope_matches
unfoldable pub scope_matches : String → String → Bool
unfolding trimmed_matches
scope_matches granted required = trimmed_matches (trim granted) (trim required)

-- AuthenticatedPrincipal::has_scope
unfoldable pub has_scope : AuthenticatedPrincipal → String → Bool
unfolding scope_matches
has_scope p required = any (λ scope. scope_matches scope required) p.scopes

-- AuthenticatedPrincipal::has_any_scope
unfoldable pub has_any_scope : AuthenticatedPrincipal → List String → Bool
unfolding has_scope
has_any_scope p required = any (has_scope p) required

-- AuthenticatedPrincipal::has_gateway_admin_scope
unfoldable pub has_gateway_admin_scope : AuthenticatedPrincipal → Bool
unfolding has_any_scope
has_gateway_admin_scope p = has_any_scope p (
    "admin_gateway:admin" ∷ "admin_gateway:admin:*" ∷ "core_gateway:admin" ∷ "core_gateway:admin:*"
    ∷ "gateway:admin" ∷ "flare:admin" ∷ "admin:*" ∷ "admin" ∷ [])
