-- ===== src/Security/Auth/Admission.antt =====
-- security/auth.py: who passes the role check, and the status of a refusal.
use sarvam.Prelude.{
  ◌≡◌, ◌≢◌, refl, Bool, true, false, Option, none, some, List, [], ◌∷◌, String, Text, ◌⊎◌, ◌↔◌, inl,
  inr, Bool-cases, Option-cases, any, str_eq, eq_iff, sym,
}
use sarvam.Security.Auth.{
  Environ, auth_config, nonempty, resolve_jwks_url, Raised, Claims, Principal, has_role,
  principal_of, SigningKey, provider_key, shared_secret, decode_with, verify, decode_token,
  get_current_principal, require_role,
}

Sum-cases :
    {A : Type 0} {B : Type 0} (x : A ⊎ B) → ((a : A) × (x ≡ inl a)) ⊎ ((b : B) × (x ≡ inr b))
Sum-cases (inl a) = inl (a, refl)
Sum-cases (inr b) = inr (b, refl)

inl-not-inr : {A : Type 0} {B : Type 0} {x : A ⊎ B} {a : A} {b : B} → x ≡ inl a → x ≢ inr b
inl-not-inr h k = cc

inr-injective : {A : Type 0} {B : Type 0} {x : A ⊎ B} {b c : B} → x ≡ inr b → x ≡ inr c → b ≡ c
inr-injective h k = cc

pub data Listed (role : String) : List String → Type 0 where
  first : {r : String} {rs : List String} → r ≡ role → Listed role (r ∷ rs)
  later : {r : String} {rs : List String} → Listed role rs → Listed role (r ∷ rs)

any-Listed : (role : String) (rs : List String) → any (str_eq role) rs ≡ true → Listed role rs
any-Listed role [] h = cc
any-Listed role (r ∷ rs) h = elim (Bool-cases (str_eq role r)) [
  | inl same ↦ first (sym ((eq_iff role r).0 same))
  | inr differs ↦ later (any-Listed role rs (rw differs at h))
]

Listed-any : (role : String) (rs : List String) → Listed role rs → any (str_eq role) rs ≡ true
Listed-any role [] h = elim h [ ]
Listed-any role (r ∷ rs) (first same) = rw ((eq_iff role r).1 (sym same)) refl
Listed-any role (r ∷ rs) (later h) = elim (Bool-cases (str_eq role r)) [
  | inl same ↦ rw same refl
  | inr differs ↦ rw differs (Listed-any role rs h)
]

abbrev is_set : Option Text → Bool
is_set none = false
is_set (some t) = true

module _ {K : Type 0} (signing_key : Text → String → Raised ⊎ K)
    (decode : String
      → SigningKey K
      → List String
      → Option Text
      → Option Text
      → Bool
      → Raised ⊎ Claims) where
  -- The claims that a token carries for this deployment: with a JWKS address they are checked with the
  -- provider's key and an asymmetric algorithm only, and the shared secret counts only without one.
  -- The audience is checked exactly where one is configured, and the issuer is not.
  pub data Issued (env : Environ) : String → Claims → Type 0 where
    by_provider :
        {token : String} {c : Claims} (url : Text) (k : K)
        → resolve_jwks_url env ≡ some url
        → signing_key url token ≡ inr k
        → decode token
            (provider_key k)
            ("ES256" ∷ "RS256" ∷ [])
            env.jwt_audience
            none
            (is_set env.jwt_audience)
          ≡ inr c
        → Issued env token c
    by_secret :
        {token : String} {c : Claims} (secret : Text)
        → resolve_jwks_url env ≡ none
        → nonempty env.jwt_signing_secret ≡ some secret
        → decode token
            (shared_secret secret)
            ("HS256" ∷ [])
            env.jwt_audience
            none
            (is_set env.jwt_audience)
          ≡ inr c
        → Issued env token c

  -- The role check passes exactly the holder of issued claims that list the role.
  pub data Allowed (role : String) (env : Environ) : Option String → Principal → Type 0 where
    allowed :
        {token : String} {p : Principal} (c : Claims) (rs : List String)
        → Issued env token c
        → c.claimed_roles ≡ some rs
        → Listed role rs
        → p ≡ record { subject = c.sub; roles = rs; claims = c }
        → Allowed role env (some token) p

  Issued-verify :
      (env : Environ) (token : String) (c : Claims)
      → Issued env token c
      → verify signing_key decode env (auth_config env.jwt_audience) token ≡ inr c
  unfolding verify auth_config decode_with
  Issued-verify env token c (by_provider url k at_url has_key decoded) =
      rw (at_url, has_key, decoded, verify) refl
  Issued-verify env token c (by_secret secret no_url has_secret decoded) =
      rw (no_url, has_secret, decoded, verify) refl

  verify-Issued :
      (env : Environ) (token : String) (c : Claims)
      → verify signing_key decode env (auth_config env.jwt_audience) token ≡ inr c
      → Issued env token c
  unfolding verify auth_config decode_with
  verify-Issued env token c h = elim (Option-cases (resolve_jwks_url env)) [
    | inl no_url ↦ elim (Option-cases (nonempty env.jwt_signing_secret)) [
      | inl no_secret ↦ elim (inl-not-inr refl (rw (no_url, no_secret, verify) at h)) [ ]
      | inr (secret, has_secret) ↦
          by_secret secret no_url has_secret (rw (no_url, has_secret, verify) at h)
    ]
    | inr (url, at_url) ↦ elim (Sum-cases (signing_key url token)) [
      | inl (e, fails) ↦ elim (inl-not-inr refl (rw (at_url, fails, verify) at h)) [ ]
      | inr (k, has_key) ↦ by_provider url k at_url has_key (rw (at_url, has_key, verify) at h)
    ]
  ]

  get_current_principal-Issued :
      (env : Environ) (token : String) (p : Principal)
      → get_current_principal signing_key decode env (some token) ≡ inr p
      → (c : Claims) × Issued env token c × (principal_of c ≡ p)
  unfolding get_current_principal decode_token
  get_current_principal-Issued env token p h =
      elim (Sum-cases (verify signing_key decode env (auth_config env.jwt_audience) token)) [
        | inl (e, fails) ↦ elim (inl-not-inr refl (rw (fails, decode_token) at h)) [ ]
        | inr (c, verified) ↦ (
          c,
          verify-Issued env token c verified,
          inr-injective refl (rw (verified, decode_token) at h),
        )
      ]

  has_role-Allowed :
      (role : String) (env : Environ) (token : String) (c : Claims)
      → Issued env token c
      → has_role (principal_of c) role ≡ true
      → Allowed role env (some token) (principal_of c)
  unfolding has_role principal_of
  has_role-Allowed role env token c issued h = elim (Option-cases c.claimed_roles) [
    | inl no_roles ↦ let none_listed : true ≡ false = sym (rw no_roles at h) in cc
    | inr (rs, has_roles) ↦
        allowed c rs issued has_roles (any-Listed role rs (rw has_roles at h)) (rw has_roles refl)
  ]

  passes-Allowed :
      (role : String) (env : Environ) (token : String) (q p : Principal)
      → get_current_principal signing_key decode env (some token) ≡ inr q
      → has_role q role ≡ true
      → q ≡ p
      → Allowed role env (some token) p
  passes-Allowed role env token q p passes holds same =
      let (c, issued, is_q) = get_current_principal-Issued env token q passes in
      rw (← same, ← is_q) (has_role-Allowed role env token c issued (rw (← is_q) at holds))

  require_role-Allowed :
      (role : String) (env : Environ) (credentials : Option String) (p : Principal)
      → require_role signing_key decode role env credentials ≡ inr p
      → Allowed role env credentials p
  unfolding require_role
  require_role-Allowed role env none p h = elim (inl-not-inr refl h) [ ]
  require_role-Allowed role env (some token) p h =
      elim (Sum-cases (get_current_principal signing_key decode env (some token))) [
        | inl (e, fails) ↦ elim (inl-not-inr refl (rw (fails, require_role) at h)) [ ]
        | inr (q, passes) ↦ elim (Bool-cases (has_role q role)) [
          | inl holds ↦
              passes-Allowed role env token q p passes holds
                (inr-injective refl (rw (passes, holds, require_role) at h))
          | inr lacks ↦ elim (inl-not-inr refl (rw (passes, lacks, require_role) at h)) [ ]
        ]
      ]

  Allowed-require_role :
      (role : String) (env : Environ) (credentials : Option String) (p : Principal)
      → Allowed role env credentials p
      → require_role signing_key decode role env credentials ≡ inr p
  unfolding require_role get_current_principal decode_token has_role principal_of
  Allowed-require_role role env none p h = elim h [ ]
  Allowed-require_role role env (some token) p (allowed c rs issued has_roles listed is_p) =
      rw
        (is_p, Issued-verify env token c issued, has_roles, Listed-any role rs listed, require_role)
        refl

  -- The role check returns a principal exactly when the request carries a token whose claims the
  -- token check returns for the deployment's configuration (with a JWKS address, only by the key that
  -- the provider has for the token and with the asymmetric algorithms; without one, only by the shared
  -- secret and HS256; the audience being checked exactly where one is configured), and the roles of
  -- these claims have the role that is asked for. The principal has the subject, the roles and the
  -- claims of these claims.
  pub require_role-admits :
      (role : String) (env : Environ) (credentials : Option String) (p : Principal)
      → (require_role signing_key decode role env credentials ≡ inr p)
        ↔ Allowed role env credentials p
  require_role-admits role env credentials p =
      (require_role-Allowed role env credentials p, Allowed-require_role role env credentials p)
