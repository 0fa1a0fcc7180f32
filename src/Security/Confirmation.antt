-- ===== src/Security/Confirmation.antt =====
-- security/confirmation.py: single-use tokens for irreversible tool calls.
--
-- Times are whole ticks of one clock, read by the caller and passed in; `secrets.token_urlsafe` is
-- the argument `token`. `digest` stands for `_args_hash`, the SHA-256 of the canonical JSON of a tool
-- name and its arguments. Nothing is assumed of it.
pub mod Gate
pub mod Memory
pub mod Shared
pub mod Promises
mod Examples
use Prim.Native.String.{◌++◌ as str_append}
use sarvam.Prelude.{
  ℕ, ◌+◌, ◌≡◌, Bool, true, false, ◌&&◌, Option, none, some, List, [], ◌∷◌, map, String, Dict,
  lookup, insert, remove, str_eq, leb, ltb, keep, if◌then◌else◌,
}

pub record PendingConfirmation (Args : Type 0) : Type 0 where
  pub token : String
  pub tool_name : String
  pub args : Args

-- The entry `(tool_name, args_hash, expires_at)` of a token.
pub record Entry : Type 0 where
  pub tool : String
  pub hash : String
  pub expires_at : ℕ

-- The gate's own state; `_redis` is modelled in `Shared`.
pub record MemoryGate : Type 0 where
  pub pending : Dict Entry
  pub ttl : ℕ

abbrev pub default_ttl : ℕ
default_ttl = 300

unfoldable pub is_expired : ℕ → Option Entry → Bool
is_expired now none = false
is_expired now (some e) = leb e.expires_at now

-- The list comprehension of `_evict_expired`: `items()` gives each key with its value.
unfoldable pub expired_tokens : ℕ → Dict Entry → List String
unfolding is_expired
expired_tokens now d = keep (λ t. is_expired now (lookup t d)) (map (λ e. e.0) d)

unfoldable pub delete_all : List String → Dict Entry → Dict Entry
delete_all [] d = d
delete_all (t ∷ ts) d = delete_all ts (remove t d)

unfoldable pub evict_expired : ℕ → MemoryGate → MemoryGate
unfolding expired_tokens delete_all
evict_expired now g = record g { pending = delete_all (expired_tokens now g.pending) g.pending }

module _ {Args : Type 0} (digest : String → Args → String) where
  -- The clock is read twice, once to evict and once to set the expiry.
  unfoldable pub request_in_memory :
      String → String → Args → ℕ → ℕ → MemoryGate → MemoryGate × PendingConfirmation Args
  unfolding evict_expired
  request_in_memory token tool args now now' g =
      let g' = evict_expired now g in
      let e : Entry = record { tool = tool; hash = digest tool args; expires_at = now' + g.ttl } in
      (
        record g' { pending = insert token e g'.pending },
        record { token = token; tool_name = tool; args = args },
      )

  unfoldable pub redeem : String → String → Args → ℕ → MemoryGate → Option Entry → MemoryGate × Bool
  redeem token tool args now g none = (g, false)
  redeem token tool args now g (some e) =
      if leb e.expires_at now
      then (record g { pending = remove token g.pending }, false)
      else if str_eq e.tool tool && str_eq e.hash (digest tool args)
      then (record g { pending = remove token g.pending }, true)
      else (g, false)

  unfoldable pub consume_in_memory : String → String → Args → ℕ → MemoryGate → MemoryGate × Bool
  unfolding redeem
  consume_in_memory token tool args now g = redeem token tool args now g (lookup token g.pending)

-- What the Redis server keeps for a token: the JSON object with the fields `tool` and `hash`.
pub record Payload : Type 0 where
  pub tool : String
  pub hash : String

-- The commands that the gate sends to Redis, over the server's state. A key that was set with a time
-- to live is there until that many ticks have passed; other keys are left alone.
pub record Redis : Type 1 where
  pub Server : Type 0
  pub get : String → ℕ → Server → Option Payload
  pub set_ex : String → Payload → ℕ → ℕ → Server → Server
  pub delete : String → Server → Server
  pub get-set_ex :
      (k j : String) (p : Payload) (ttl now t : ℕ) (s : Server)
      → get j t (set_ex k p ttl now s)
        ≡ (if str_eq k j then (if ltb t (now + ttl) then some p else none) else get j t s)
  pub get-delete :
      (k j : String) (t : ℕ) (s : Server)
      → get j t (delete k s) ≡ (if str_eq k j then none else get j t s)

abbrev pub redis_key : String → String
redis_key token = str_append "confirm:" token

module _ {Args : Type 0} (digest : String → Args → String) (r : Redis) where
  open r use {Server, get, set_ex, delete}

  unfoldable pub request_redis :
      String → String → Args → ℕ → ℕ → Server → Server × PendingConfirmation Args
  request_redis token tool args ttl now s = (
    set_ex (redis_key token) (record { tool = tool; hash = digest tool args }) ttl now s,
    record { token = token; tool_name = tool; args = args },
  )

  -- The `GET` of a redemption and the tests behind it.
  unfoldable pub check_payload : String → Args → Option Payload → Bool
  check_payload tool args none = false
  check_payload tool args (some p) = str_eq p.tool tool && str_eq p.hash (digest tool args)

  unfoldable pub check_redis : String → String → Args → ℕ → Server → Bool
  unfolding check_payload
  check_redis token tool args now s = check_payload tool args (get (redis_key token) now s)

  -- The `DEL` of a redemption, which follows where the tests pass.
  unfoldable pub finish_redis : String → Bool → Server → Server × Bool
  finish_redis token true s = (delete (redis_key token) s, true)
  finish_redis token false s = (s, false)

  -- A redemption that nothing comes between: the two commands are awaited one after the other, and
  -- another client's may run between them.
  unfoldable pub consume_redis : String → String → Args → ℕ → Server → Server × Bool
  unfolding check_redis finish_redis
  consume_redis token tool args now s = finish_redis token (check_redis token tool args now s) s
