-- ===== src/Security/Auth/Examples.antt =====
-- Witnesses and tests of the access checks.
use sarvam.Prelude.{
  ◌≡◌, ◌↔◌, refl, Bool, ◌&&◌, Option, none, some, List, [], ◌∷◌, String, Text, codes, any, str_eq,
  if◌then◌else◌, ◌⊎◌, inl, inr, ℕ,
}
use sarvam.Security.Auth.{
  Environ, auth_config, nonempty, rstrip_slash, resolve_jwks_url, Raised, client_error,
  invalid_token, runtime_error, Claims, Principal, principal_of, has_role, SigningKey, provider_key,
  shared_secret, decode_with, verify, auth_error, decode_token, get_current_principal, require_role,
  Refusal, requires_role, server_misconfigured, token_invalid,
}
use sarvam.Security.Auth.Admission.{Allowed, require_role-admits}

-- The provider knows the key of every token but "forged".
abbrev signing_key : Text → String → Raised ⊎ ℕ
signing_key url token = if str_eq token "forged" then inl client_error else inr 7

abbrev ana : Claims
ana = record { sub = "ana"; claimed_roles = some ("reader" ∷ "writer" ∷ []) }

abbrev known : String → SigningKey ℕ → List String → Bool
known token (provider_key k) algorithms = str_eq token "ana's" && any (str_eq "ES256") algorithms
known token (shared_secret s) algorithms = str_eq token "shared" && any (str_eq "HS256") algorithms

abbrev decode :
    String → SigningKey ℕ → List String → Option Text → Option Text → Bool → Raised ⊎ Claims
decode token k algorithms audience issuer checks =
    if known token k algorithms then inr ana else inl invalid_token

abbrev supabase : Environ
supabase = record {
  jwt_signing_secret = some (codes "secret");
  supabase_jwks_url = some [];
  supabase_url = some (codes "https://p.co//");
  jwt_audience = none;
}

abbrev unset : Environ
unset = record {
  jwt_signing_secret = none;
  supabase_jwks_url = none;
  supabase_url = none;
  jwt_audience = none;
}

address : resolve_jwks_url supabase ≡ some (codes "https://p.co/auth/v1/.well-known/jwks.json")
unfolding resolve_jwks_url nonempty rstrip_slash
address = refl

require_role-admits_example :
    (require_role signing_key decode "writer" supabase (some "ana's") ≡ inr (principal_of ana))
    ↔ Allowed signing_key decode "writer" supabase (some "ana's") (principal_of ana)
require_role-admits_example =
    require_role-admits signing_key decode "writer" supabase (some "ana's") (principal_of ana)

abbrev outcome : Environ → String → Option String → Refusal ⊎ Principal
outcome env role credentials = require_role signing_key decode role env credentials

writer_admitted : outcome supabase "writer" (some "ana's") ≡ inr (principal_of ana)
unfolding require_role get_current_principal decode_token verify decode_with resolve_jwks_url
    nonempty auth_config has_role principal_of
writer_admitted = refl

no_admin :
    outcome supabase "admin" (some "ana's")
    ≡ inl (record { status_code = 403; detail = requires_role "admin" })
unfolding require_role get_current_principal decode_token verify decode_with resolve_jwks_url
    nonempty auth_config has_role principal_of
no_admin = refl

-- A token under the shared secret is refused where the provider's keys are in use.
shared_refused :
    outcome supabase "writer" (some "shared")
    ≡ inl (record { status_code = 401; detail = token_invalid invalid_token })
unfolding require_role get_current_principal decode_token verify decode_with resolve_jwks_url
    nonempty auth_config auth_error
shared_refused = refl

forged_refused :
    outcome supabase "writer" (some "forged")
    ≡ inl (record { status_code = 401; detail = token_invalid client_error })
unfolding require_role get_current_principal decode_token verify resolve_jwks_url nonempty
    auth_config auth_error
forged_refused = refl

misconfigured :
    outcome unset "writer" (some "shared")
    ≡ inl (record { status_code = 500; detail = server_misconfigured runtime_error })
unfolding require_role get_current_principal decode_token verify resolve_jwks_url nonempty
    auth_config auth_error
misconfigured = refl
