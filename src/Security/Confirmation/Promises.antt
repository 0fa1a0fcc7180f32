-- ===== src/Security/Confirmation/Promises.antt =====
-- The promises of the confirmation gate, for each of its two backends.
use sarvam.Prelude.{ℕ, ◌+◌, ◌≤◌, ◌≡◌, true, false, Bool, List, String, ltb, ◌≢◌, ◌⊎◌}
use sarvam.Security.Confirmation.{
  MemoryGate, Redis, request_in_memory, consume_in_memory, request_redis, check_redis, finish_redis,
  consume_redis,
}
use sarvam.Security.Confirmation.Gate.{
  consume-request, consume_once, consume_other_action, consume_frame,
}
use sarvam.Security.Confirmation.Memory.{memory_gate, memory_view}
use sarvam.Security.Confirmation.Shared.{redis_gate, redis_view, finish_others, finished-refused}

module _ {Args : Type 0} (digest : String → Args → String) (r : Redis) (ttl : ℕ) where
  open r use {Server}

  -- A confirmation that is issued at one time and presented at a later one, for the same tool and
  -- arguments, is accepted exactly if less than the time to live has passed, by either backend.
  pub token_lifetime :
      (token tool : String) (args : Args) (now t : ℕ) (g : MemoryGate) (s : Server)
      → now ≤ t
      → ((consume_in_memory digest token tool args t
            (request_in_memory digest token tool args now now g).0).1
          ≡ ltb t (now + g.ttl))
        × ((consume_redis digest r token tool args t
              (request_redis digest r token tool args ttl now s).0).1
            ≡ ltb t (now + ttl))
  token_lifetime token tool args now t g s h = (
    consume-request (memory_gate digest) token tool args now t g h,
    consume-request (redis_gate digest r ttl) token tool args now t s h,
  )

  -- A token that was redeemed from the memory of a process is refused at every later time, whatever
  -- action it is presented for. In Redis a redemption is a `GET` with the tests behind it and then a
  -- `DEL`, and the server may change in between. Whatever the server is when the `DEL` of a passed
  -- redemption runs, and whatever other redemptions delete after it, every redemption of the token
  -- whose `GET` comes after this `DEL` is refused, at any time and for any action.
  pub token_single_use :
      (token tool tool' : String) (args args' : Args) (now t : ℕ) (g : MemoryGate)
      (before between : Server) (others : List (String × Bool))
      → now ≤ t
      → (consume_in_memory digest token tool args now g).1 ≡ true
      → check_redis digest r token tool args now before ≡ true
      → ((consume_in_memory digest token tool' args' t
            (consume_in_memory digest token tool args now g).0).1
          ≡ false)
        × (check_redis digest r token tool' args' t (
              finish_others digest r ttl others
                (finish_redis digest r token
                  (check_redis digest r token tool args now before)
                  between).0)
            ≡ false)
  token_single_use token tool tool' args args' now t g before between others h cm cr = (
    consume_once (memory_gate digest) token tool tool' args args' now t g h cm,
    rw cr (finished-refused digest r ttl token tool' args' t between others),
  )

  -- A token that was issued for one action is refused for another one, with another tool or with
  -- arguments of another digest, by either backend, and afterwards every token, this one too, can
  -- be redeemed for what it could be redeemed for before.
  pub token_other_action :
      (token tool tool' : String) (args args' : Args) (now t u : ℕ) (g : MemoryGate) (s : Server)
      (j : String)
      → now ≤ t
      → t ≤ u
      → (tool ≢ tool') ⊎ (digest tool args ≢ digest tool' args')
      → let gm = (request_in_memory digest token tool args now now g).0 in
        let gr = (request_redis digest r token tool args ttl now s).0 in
        ((consume_in_memory digest token tool' args' t gm).1 ≡ false)
        × (memory_view (consume_in_memory digest token tool' args' t gm).0 u j ≡ memory_view gm u j)
        × ((consume_redis digest r token tool' args' t gr).1 ≡ false)
        × (redis_view digest r ttl (consume_redis digest r token tool' args' t gr).0 u j
            ≡ redis_view digest r ttl gr u j)
  token_other_action token tool tool' args args' now t u g s j h k d =
      let m =
        consume_other_action (memory_gate digest) token tool tool' args args' now t u g j h k d in
      let x =
        consume_other_action (redis_gate digest r ttl) token tool tool' args args' now t u s j h k
          d in
      (m.0, m.1, x.0, x.1)

  -- Whether a redemption succeeds or not, another token stands afterwards for what it stood for.
  pub token_frame :
      (token tool : String) (args : Args) (now t : ℕ) (g : MemoryGate) (s : Server) (j : String)
      → now ≤ t
      → token ≢ j
      → (memory_view (consume_in_memory digest token tool args now g).0 t j ≡ memory_view g t j)
        × (redis_view digest r ttl (consume_redis digest r token tool args now s).0 t j
            ≡ redis_view digest r ttl s t j)
  token_frame token tool args now t g s j h ne = (
    consume_frame (memory_gate digest) token tool args now t g j h ne,
    consume_frame (redis_gate digest r ttl) token tool args now t s j h ne,
  )
