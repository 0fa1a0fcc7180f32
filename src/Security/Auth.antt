-- ===== src/Security/Auth.antt =====
-- security/auth.py: the check of a bearer token and of a role.
--
-- PyJWT is a parameter: `signing_key` looks up the key of a token at a JWKS address, and `decode` checks
-- a token with a key, the accepted algorithms, the audience, the issuer and whether the audience is
-- checked. Both return the claims or the exception that they raise. Every call requires the claims `exp`
-- and `sub`, so that claims that are returned have a subject. The text of an exception is left out of
-- the detail that quotes it. `roles` is a list of names where a token has it.
pub mod Admission
mod Examples
use sarvam.Prelude.{
  ℕ, Bool, true, false, ◌&&◌, Option, none, some, List, [], ◌∷◌, ◌++◌, String, Text, codes, any,
  is_empty, str_eq, if◌then◌else◌, ◌⊎◌, inl, inr, ◌==◌,
}

-- `os.environ`, as far as it is read here.
pub record Environ : Type 0 where
  pub jwt_signing_secret : Option Text
  pub supabase_jwks_url : Option Text
  pub supabase_url : Option Text
  pub jwt_audience : Option Text

-- `secret_env` is left at `JWT_SIGNING_SECRET`, the only value in use.
pub record AuthConfig : Type 0 where
  pub algorithm : String
  pub audience : Option Text
  pub issuer : Option Text

-- `AuthConfig(audience=...)`
unfoldable pub auth_config : Option Text → AuthConfig
auth_config aud = record { algorithm = "HS256"; audience = aud; issuer = none }

-- A variable that is set to the empty text counts as missing.
unfoldable pub nonempty : Option Text → Option Text
nonempty none = none
nonempty (some t) = if is_empty t then none else some t

-- `text.rstrip("/")`
unfoldable pub rstrip_slash : Text → Text
rstrip_slash [] = []
rstrip_slash (c ∷ t) =
    let rest = rstrip_slash t in if is_empty rest && (c == 47) then [] else c ∷ rest

unfoldable pub resolve_jwks_url : Environ → Option Text
unfolding nonempty rstrip_slash
resolve_jwks_url env = elim (nonempty env.supabase_jwks_url) [
  | some url ↦ some url
  | none ↦ elim (nonempty env.supabase_url) [
    | none ↦ none
    | some url ↦ some (rstrip_slash url ++ codes "/auth/v1/.well-known/jwks.json")
  ]
]

-- The exceptions of the `try` block: the missing secret, and PyJWT's.
pub data Raised : Type 0 where
  runtime_error : Raised
  connection_error : Raised
  client_error : Raised
  expired_signature : Raised
  invalid_token : Raised

pub record Claims : Type 0 where
  pub sub : String
  pub claimed_roles : Option (List String)

pub record Principal : Type 0 where
  pub subject : String
  pub roles : List String
  pub claims : Claims

unfoldable pub has_role : Principal → String → Bool
has_role p role = any (str_eq role) p.roles

unfoldable pub principal_of : Claims → Principal
principal_of c = record {
  subject = c.sub;
  roles = elim c.claimed_roles [ none ↦ [] | some rs ↦ rs ];
  claims = c;
}

pub data Detail : Type 0 where
  missing_bearer_token : Detail
  server_misconfigured : Raised → Detail
  token_invalid : Raised → Detail
  token_expired : Detail
  requires_role : String → Detail

-- `AuthError`, and the `HTTPException` it is turned into.
pub record Refusal : Type 0 where
  pub status_code : ℕ
  pub detail : Detail

unfoldable pub auth_error : Raised → Refusal
auth_error runtime_error = record { status_code = 500; detail = server_misconfigured runtime_error }
auth_error connection_error = record {
  status_code = 500;
  detail = server_misconfigured connection_error;
}
auth_error client_error = record { status_code = 401; detail = token_invalid client_error }
auth_error expired_signature = record { status_code = 401; detail = token_expired }
auth_error invalid_token = record { status_code = 401; detail = token_invalid invalid_token }

-- A key of the provider, or the shared secret.
pub data SigningKey (K : Type 0) : Type 0 where
  provider_key : K → SigningKey K
  shared_secret : Text → SigningKey K

module _ {K : Type 0} (signing_key : Text → String → Raised ⊎ K)
    (decode : String
      → SigningKey K
      → List String
      → Option Text
      → Option Text
      → Bool
      → Raised ⊎ Claims) where
  -- `jwt.decode` with the options of both calls.
  unfoldable pub decode_with : AuthConfig → String → SigningKey K → List String → Raised ⊎ Claims
  decode_with cfg token key algorithms =
      decode token key algorithms cfg.audience cfg.issuer
        (elim cfg.audience [ none ↦ false | some _ ↦ true ])

  -- The body of the `try` block.
  unfoldable pub verify : Environ → AuthConfig → String → Raised ⊎ Claims
  unfolding decode_with resolve_jwks_url nonempty
  verify env cfg token = elim (resolve_jwks_url env) [
    | some url ↦ elim (signing_key url token) [
      | inl e ↦ inl e
      | inr k ↦ decode_with cfg token (provider_key k) ("ES256" ∷ "RS256" ∷ [])
    ]
    | none ↦ elim (nonempty env.jwt_signing_secret) [
      | none ↦ inl runtime_error
      | some secret ↦ decode_with cfg token (shared_secret secret) (cfg.algorithm ∷ [])
    ]
  ]

  unfoldable pub decode_token : Environ → AuthConfig → String → Refusal ⊎ Principal
  unfolding verify auth_error principal_of
  decode_token env cfg token = elim (verify env cfg token) [
    | inl e ↦ inl (auth_error e)
    | inr c ↦ inr (principal_of c)
  ]

  unfoldable pub get_current_principal : Environ → Option String → Refusal ⊎ Principal
  unfolding decode_token auth_config
  get_current_principal env none = inl (record { status_code = 401; detail = missing_bearer_token })
  get_current_principal env (some token) = decode_token env (auth_config env.jwt_audience) token

  unfoldable pub require_role : String → Environ → Option String → Refusal ⊎ Principal
  unfolding get_current_principal has_role
  require_role role env credentials = elim (get_current_principal env credentials) [
    | inl e ↦ inl e
    | inr p ↦
        if has_role p role
        then inr p
        else inl (record { status_code = 403; detail = requires_role role })
  ]
