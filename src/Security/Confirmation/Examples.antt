-- ===== src/Security/Confirmation/Examples.antt =====
-- Witnesses of the confirmation gate: a Redis server as an association list with expiry times, and
-- arguments that are texts, with themselves as digest.
use sarvam.Prelude.{
  ℕ, ◌+◌, ◌≡◌, refl, Bool, true, false, Option, none, some, List, [], ◌∷◌, String, Dict, lookup,
  insert, remove, lookup-insert, lookup-remove, str_eq, ltb, if◌then◌else◌, arith, inr, ◌≢◌, eq_iff,
}
use sarvam.Security.Confirmation.{
  Payload, Redis, MemoryGate, request_in_memory, consume_in_memory, request_redis, consume_redis,
  check_payload, check_redis, finish_redis,
}
use sarvam.Security.Confirmation.Memory.{memory_view}
use sarvam.Security.Confirmation.Shared.{redis_view, finish_others}
use sarvam.Security.Confirmation.Promises.{
  token_lifetime, token_single_use, token_other_action, token_frame,
}

record Kept : Type 0 where
  payload : Payload
  until : ℕ

abbrev alive : ℕ → Option Kept → Option Payload
alive t none = none
alive t (some k) = if ltb t k.until then some k.payload else none

abbrev server_get : String → ℕ → Dict Kept → Option Payload
server_get k t s = alive t (lookup k s)

abbrev server_set : String → Payload → ℕ → ℕ → Dict Kept → Dict Kept
server_set k p ttl now s = insert k (record { payload = p; until = now + ttl }) s

server_get-set :
    (k j : String) (p : Payload) (ttl now t : ℕ) (s : Dict Kept)
    → server_get j t (server_set k p ttl now s)
      ≡ (if str_eq k j then (if ltb t (now + ttl) then some p else none) else server_get j t s)
server_get-set k j p ttl now t s = rw lookup-insert (ground arith)

server_get-remove :
    (k j : String) (t : ℕ) (s : Dict Kept)
    → server_get j t (remove k s) ≡ (if str_eq k j then none else server_get j t s)
server_get-remove k j t s = rw lookup-remove (ground arith)

abbrev local : Redis
local = record {
  Server = Dict Kept;
  get = server_get;
  set_ex = server_set;
  delete = remove;
  get-set_ex = server_get-set;
  get-delete = server_get-remove;
}

abbrev digest : String → String → String
digest tool args = args

abbrev gate : MemoryGate
gate = record { pending = []; ttl = 300 }

abbrev issued : MemoryGate
issued = (request_in_memory digest "k" "delete_note" "7" 10 10 gate).0

abbrev issued_redis : Dict Kept
issued_redis = (request_redis digest local "k" "delete_note" "7" 300 10 []).0

token_lifetime_example :
    ((consume_in_memory digest "k" "delete_note" "7" 309 issued).1 ≡ true)
    × ((consume_redis digest local "k" "delete_note" "7" 309 issued_redis).1 ≡ true)
token_lifetime_example =
    token_lifetime digest local 300 "k" "delete_note" "7" 10 309 gate [] (omega arith)

-- Between the two commands of the redemption of "k" and after it another token is redeemed.
abbrev other_redemption : List (String × Bool)
other_redemption = ("j", true) ∷ []

token_single_use_example :
    ((consume_in_memory digest "k" "delete_note" "8" 12
        (consume_in_memory digest "k" "delete_note" "7" 11 issued).0).1
      ≡ false)
    × (check_redis digest local "k" "delete_note" "8" 12 (
          finish_others digest local 300 other_redemption
            (finish_redis digest local "k"
              (check_redis digest local "k" "delete_note" "7" 11 issued_redis)
              (remove "j" issued_redis)).0)
        ≡ false)
unfolding consume_in_memory request_in_memory check_redis check_payload request_redis lookup insert
token_single_use_example =
    token_single_use digest local 300 "k" "delete_note" "delete_note" "7" "8" 11 12 issued
      issued_redis (remove "j" issued_redis) other_redemption (omega arith) refl refl

-- Two redemptions of one token whose `GET`s both run before either `DEL` are both accepted.
both_accepted :
    (check_redis digest local "k" "delete_note" "7" 11 issued_redis ≡ true)
    × ((finish_redis digest local "k"
          (check_redis digest local "k" "delete_note" "7" 11 issued_redis)
          (finish_redis digest local "k" true issued_redis).0).1
        ≡ true)
unfolding check_redis check_payload finish_redis request_redis lookup insert
both_accepted = (refl, refl)

seven-ne-eight : ◌≢◌ {A = String} "7" "8"
seven-ne-eight = ground (arith, eq_iff "7" "8")

k-ne-j : ◌≢◌ {A = String} "k" "j"
k-ne-j = ground (arith, eq_iff "k" "j")

token_other_action_example :
    ((consume_in_memory digest "k" "delete_note" "8" 11 issued).1 ≡ false)
    × (memory_view (consume_in_memory digest "k" "delete_note" "8" 11 issued).0 12 "k"
        ≡ memory_view issued 12 "k")
    × ((consume_redis digest local "k" "delete_note" "8" 11 issued_redis).1 ≡ false)
    × (redis_view digest local 300
          (consume_redis digest local "k" "delete_note" "8" 11 issued_redis).0
          12
          "k"
        ≡ redis_view digest local 300 issued_redis 12 "k")
token_other_action_example =
    token_other_action digest local 300 "k" "delete_note" "delete_note" "7" "8" 10 11 12 gate [] "k"
      (omega arith) (omega arith) (inr seven-ne-eight)

token_frame_example :
    (memory_view (consume_in_memory digest "k" "delete_note" "7" 11 issued).0 12 "j"
      ≡ memory_view issued 12 "j")
    × (redis_view digest local 300
          (consume_redis digest local "k" "delete_note" "7" 11 issued_redis).0
          12
          "j"
        ≡ redis_view digest local 300 issued_redis 12 "j")
token_frame_example =
    token_frame digest local 300 "k" "delete_note" "7" 11 12 issued issued_redis "j" (omega arith)
      k-ne-j
