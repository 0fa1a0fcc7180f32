-- ===== src/Security/Confirmation/Shared.antt =====
-- The Redis backend keeps the gate's promises, over any server with the commands' documented
-- behaviour.
use text.Mathlib.TextLemmas.{append_cancel_left}
use sarvam.Prelude.{
  ℕ, ◌+◌, ◌≤◌, ◌≡◌, refl, ap, ◌&&◌, Option, none, some, String, str_eq, ltb, if◌then◌else◌, arith,
  eq_iff, Bool-cases, inl, inr, Bool, true, false, List, [], ◌∷◌, ◌∙◌,
}
use sarvam.Security.Confirmation.{
  Payload, Redis, redis_key, request_redis, check_payload, check_redis, finish_redis, consume_redis,
}
use sarvam.Security.Confirmation.Gate.{Gate, matches}

abbrev action : Option Payload → Option (String × String)
action none = none
action (some p) = some (p.tool, p.hash)

-- Different tokens have different keys.
redis_key-eq : (t j : String) → str_eq (redis_key t) (redis_key j) ≡ str_eq t j
redis_key-eq t j = elim (Bool-cases (str_eq t j)) [
  | inl e ↦ rw (e, (eq_iff (redis_key t) (redis_key j)).1 (ap redis_key ((eq_iff t j).0 e)))
  | inr e ↦ elim (Bool-cases (str_eq (redis_key t) (redis_key j))) [
    | inl k ↦ cc (
        (eq_iff t j).1
          (append_cancel_left "confirm:" t j ((eq_iff (redis_key t) (redis_key j)).0 k)))
    | inr k ↦ rw (e, k)
  ]
]

module _ {Args : Type 0} (digest : String → Args → String) (r : Redis) (ttl : ℕ) where
  open r use {Server, get, get-set_ex, get-delete}

  abbrev pub redis_view : Server → ℕ → String → Option (String × String)
  redis_view s t j = action (get (redis_key j) t s)

  pub redis_view-request :
      (token tool : String) (args : Args) (now t : ℕ) (s : Server) (j : String)
      → now ≤ t
      → redis_view (request_redis digest r token tool args ttl now s).0 t j ≡ (
          if str_eq token j
          then (if ltb t (now + ttl) then some (tool, digest tool args) else none)
          else redis_view s t j)
  unfolding request_redis
  redis_view-request token tool args now t s j h = rw (get-set_ex, redis_key-eq) (ground arith)

  check_payload-matches :
      (tool : String) (args : Args) (o : Option Payload)
      → check_payload digest r tool args o ≡ matches (action o) tool (digest tool args)
  unfolding check_payload
  check_payload-matches tool args none = refl
  check_payload-matches tool args (some p) = refl

  pub check_redis-matches :
      (token tool : String) (args : Args) (now : ℕ) (s : Server)
      → check_redis digest r token tool args now s
        ≡ matches (redis_view s now token) tool (digest tool args)
  unfolding check_redis
  check_redis-matches token tool args now s =
      check_payload-matches tool args (get (redis_key token) now s)

  finish_redis-result :
      (token : String) (b : Bool) (s : Server) → (finish_redis digest r token b s).1 ≡ b
  unfolding finish_redis
  finish_redis-result token true s = refl
  finish_redis-result token false s = refl

  pub redis_consume-result :
      (token tool : String) (args : Args) (now : ℕ) (s : Server)
      → (consume_redis digest r token tool args now s).1
        ≡ matches (redis_view s now token) tool (digest tool args)
  unfolding consume_redis
  redis_consume-result token tool args now s =
      finish_redis-result token _ s ∙ check_redis-matches token tool args now s

  -- A redemption's `DEL` takes the token away, whenever it comes.
  pub view-finish_redis :
      (token : String) (b : Bool) (t : ℕ) (s : Server) (j : String)
      → redis_view (finish_redis digest r token b s).0 t j
        ≡ (if (finish_redis digest r token b s).1 && str_eq token j then none else redis_view s t j)
  unfolding finish_redis
  view-finish_redis token true t s j =
      ground (arith, get-delete (redis_key token) (redis_key j) t s, redis_key-eq token j)
  view-finish_redis token false t s j = refl

  pub redis_view-consume :
      (token tool : String) (args : Args) (now t : ℕ) (s : Server) (j : String)
      → now ≤ t
      → redis_view (consume_redis digest r token tool args now s).0 t j ≡ (
          if (consume_redis digest r token tool args now s).1 && str_eq token j
          then none
          else redis_view s t j)
  unfolding consume_redis
  redis_view-consume token tool args now t s j h = view-finish_redis token _ t s j

  -- What other redemptions do to the server meanwhile: their `DEL`s, of any tokens.
  abbrev pub finish_others : List (String × Bool) → Server → Server
  finish_others [] s = s
  finish_others ((token, b) ∷ rest) s = finish_others rest (finish_redis digest r token b s).0

  finish-gone :
      (j : String) (b : Bool) (token : String) (t : ℕ) (s : Server)
      → redis_view s t token ≡ none
      → redis_view (finish_redis digest r j b s).0 t token ≡ none
  finish-gone j b token t s h = rw (view-finish_redis j b t s token) (ground (arith, h))

  finish_others-gone :
      (others : List (String × Bool)) (token : String) (t : ℕ) (s : Server)
      → redis_view s t token ≡ none
      → redis_view (finish_others others s) t token ≡ none
  finish_others-gone [] token t s h = h
  finish_others-gone ((j, b) ∷ rest) token t s h =
      finish_others-gone rest token t _ (finish-gone j b token t s h)

  finished-gone :
      (token : String) (t : ℕ) (s : Server)
      → redis_view (finish_redis digest r token true s).0 t token ≡ none
  unfolding finish_redis
  finished-gone token t s = ground (
    arith,
    get-delete (redis_key token) (redis_key token) t s,
    redis_key-eq token token,
    eq_iff token token,
  )

  -- Behind the `DEL` of a redemption the token is refused, whatever other redemptions do.
  pub finished-refused :
      (token tool : String) (args : Args) (t : ℕ) (s : Server) (others : List (String × Bool))
      → check_redis digest r token tool args t
          (finish_others others (finish_redis digest r token true s).0)
        ≡ false
  finished-refused token tool args t s others =
      check_redis-matches token tool args t _
      ∙ ap (λ o. matches o tool (digest tool args))
          (finish_others-gone others token t _ (finished-gone token t s))

  -- The Redis gate implements the specification of a gate.
  abbrev pub redis_gate : Gate digest
  redis_gate = record {
    State = Server;
    ttl = λ s. ttl;
    view = redis_view;
    request = λ token tool args now s. (request_redis digest r token tool args ttl now s).0;
    consume = consume_redis digest r;
    view-request = redis_view-request;
    consume-result = redis_consume-result;
    view-consume = redis_view-consume;
  }
