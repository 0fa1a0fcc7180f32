-- ===== src/Security/Confirmation/Gate.antt =====
-- What a confirmation gate promises, whichever backend keeps its tokens, and what follows for the
-- code that uses one.
use sarvam.Prelude.{
  ℕ, ◌+◌, ◌≤◌, ◌≡◌, Bool, true, false, ◌&&◌, Option, none, some, String, str_eq, ltb, if◌then◌else◌,
  arith, eq_iff, ◌≢◌, refl, ◌⊎◌, inl, inr,
}

-- Does a live token stand for this tool and these arguments?
abbrev pub matches : Option (String × String) → String → String → Bool
matches none tool hash = false
matches (some (t, h)) tool hash = str_eq t tool && str_eq h hash

-- `view` tells which action a token stands for at a time, if it can still be redeemed then.
pub record Gate {Args : Type 0} (digest : String → Args → String) : Type 1 where
  pub State : Type 0
  pub ttl : State → ℕ
  pub view : State → ℕ → String → Option (String × String)
  pub request : String → String → Args → ℕ → State → State
  pub consume : String → String → Args → ℕ → State → State × Bool
  pub view-request :
      (token tool : String) (args : Args) (now t : ℕ) (s : State) (j : String)
      → now ≤ t
      → view (request token tool args now s) t j ≡ (
          if str_eq token j
          then (if ltb t (now + ttl s) then some (tool, digest tool args) else none)
          else view s t j)
  pub consume-result :
      (token tool : String) (args : Args) (now : ℕ) (s : State)
      → (consume token tool args now s).1 ≡ matches (view s now token) tool (digest tool args)
  pub view-consume :
      (token tool : String) (args : Args) (now t : ℕ) (s : State) (j : String)
      → now ≤ t
      → view (consume token tool args now s).0 t j
        ≡ (if (consume token tool args now s).1 && str_eq token j then none else view s t j)

module _ {Args : Type 0} {digest : String → Args → String} (g : Gate digest) where
  open g use {State, ttl, view, request, consume, view-request, consume-result, view-consume}

  matches-some :
      (o : Option (String × String)) (tool hash : String)
      → matches o tool hash ≡ true
      → o ≡ some (tool, hash)
  matches-some none tool hash h = cc
  matches-some (some (t, k)) tool hash h = ground (arith, eq_iff t tool, eq_iff k hash)

  matches_self : (tool hash : String) → matches (some (tool, hash)) tool hash ≡ true
  matches_self tool hash = ground (arith, eq_iff tool tool, eq_iff hash hash)

  self_eq : (t : String) → str_eq t t ≡ true
  self_eq t = (eq_iff t t).1 refl

  -- A token redeems exactly while it is live: at any time from the request on and before the time to
  -- live has passed the same action is confirmed, and from then on it is not.
  pub consume-request :
      (token tool : String) (args : Args) (now t : ℕ) (s : State)
      → now ≤ t
      → (consume token tool args t (request token tool args now s)).1 ≡ ltb t (now + ttl s)
  consume-request token tool args now t s h =
      rw (consume-result, view-request token tool args now t s token h, self_eq token)
        (ground (arith, matches_self tool (digest tool args)))

  -- A redeemed token is gone: whatever action is tried with it later is refused.
  pub consume_once :
      (token tool tool' : String) (args args' : Args) (now t : ℕ) (s : State)
      → now ≤ t
      → (consume token tool args now s).1 ≡ true
      → (consume token tool' args' t (consume token tool args now s).0).1 ≡ false
  consume_once token tool tool' args args' now t s h c = rw (
    consume-result token tool' args' t,
    view-consume token tool args now t s token h,
    c,
    self_eq token,
  )

  -- A token cannot be redeemed for another action: with another tool, or with arguments of another
  -- digest, the call is refused, and afterwards every token stands for what it stood for.
  pub consume_other_action :
      (token tool tool' : String) (args args' : Args) (now t u : ℕ) (s : State) (j : String)
      → now ≤ t
      → t ≤ u
      → (tool ≢ tool') ⊎ (digest tool args ≢ digest tool' args')
      → ((consume token tool' args' t (request token tool args now s)).1 ≡ false)
        × (view (consume token tool' args' t (request token tool args now s)).0 u j
            ≡ view (request token tool args now s) u j)
  consume_other_action token tool tool' args args' now t u s j h k d =
      (refused, rw (view-consume token tool' args' t u _ j k, refused))
    where
      mismatch :
          (b : Bool)
          → matches (if b then some (tool, digest tool args) else none) tool' (digest tool' args')
            ≡ false
      mismatch false = refl
      mismatch true = elim d [
        | inl ne ↦ ground (arith, eq_iff tool tool')
        | inr ne ↦ ground (arith, eq_iff tool tool', eq_iff (digest tool args) (digest tool' args'))
      ]

      refused : (consume token tool' args' t (request token tool args now s)).1 ≡ false
      refused =
          rw (consume-result, view-request token tool args now t s token h, self_eq token)
            (mismatch (ltb t (now + ttl s)))

  -- Redeeming one token, or failing to, leaves every other token as it was.
  pub consume_frame :
      (token tool : String) (args : Args) (now t : ℕ) (s : State) (j : String)
      → now ≤ t
      → token ≢ j
      → view (consume token tool args now s).0 t j ≡ view s t j
  consume_frame token tool args now t s j h ne =
      rw (view-consume token tool args now t s j h) (ground (arith, eq_iff token j))
