-- ===== src/Security/Confirmation/Memory.antt =====
-- The in-memory backend keeps the gate's promises.
use sarvam.Prelude.{
  ℕ, ◌+◌, ◌≤◌, ◌≡◌, refl, Bool, true, ◌&&◌, Option, none, some, List, [], ◌∷◌, map, String, Dict,
  lookup, remove, lookup-insert, lookup-remove, str_eq, leb, ltb, keep, any, if◌then◌else◌, arith,
  eq_iff, Bool-cases, inl, inr,
}
use sarvam.Security.Confirmation.{
  Entry, MemoryGate, is_expired, expired_tokens, delete_all, evict_expired, request_in_memory,
  redeem, consume_in_memory,
}
use sarvam.Security.Confirmation.Gate.{Gate, matches}

abbrev live_at : ℕ → Option Entry → Option (String × String)
live_at t none = none
live_at t (some e) = if leb e.expires_at t then none else some (e.tool, e.hash)

abbrev pub memory_view : MemoryGate → ℕ → String → Option (String × String)
memory_view g t j = live_at t (lookup j g.pending)

abbrev has : String → List String → Bool
has j ts = any (λ t. str_eq t j) ts

lookup-delete_all :
    (ts : List String) (j : String) (d : Dict Entry)
    → lookup j (delete_all ts d) ≡ (if has j ts then none else lookup j d)
unfolding delete_all
lookup-delete_all [] j d = refl
lookup-delete_all (t ∷ ts) j d =
    ground (arith, lookup-delete_all ts j (remove t d), lookup-remove t j d)

-- A deleted token was expired.
has-keep :
    (now : ℕ) (d : Dict Entry) (j : String) (ts : List String)
    → has j (keep (λ t. is_expired now (lookup t d)) ts) ≡ true
    → is_expired now (lookup j d) ≡ true
has-keep now d j [] h = cc
has-keep now d j (t ∷ ts) h = ground (arith, has-keep now d j ts, eq_iff t j)

-- What an expired entry shows is nothing, from then on.
live_at-expired :
    (now t : ℕ) (o : Option Entry) → now ≤ t → is_expired now o ≡ true → live_at t o ≡ none
unfolding is_expired
live_at-expired now t none h e = cc
live_at-expired now t (some x) h e = ground arith

view-evict :
    (now t : ℕ) (g : MemoryGate) (j : String)
    → now ≤ t
    → memory_view (evict_expired now g) t j ≡ memory_view g t j
unfolding evict_expired
view-evict now t g j h = ground (
  arith,
  lookup-delete_all (expired_tokens now g.pending) j g.pending,
  has-keep now g.pending j (map (λ e. e.0) g.pending),
  live_at-expired now t (lookup j g.pending),
)

module _ {Args : Type 0} (digest : String → Args → String) where
  abbrev request : String → String → Args → ℕ → MemoryGate → MemoryGate
  request token tool args now g = (request_in_memory digest token tool args now now g).0

  pub memory_view-request :
      (token tool : String) (args : Args) (now t : ℕ) (g : MemoryGate) (j : String)
      → now ≤ t
      → memory_view (request token tool args now g) t j ≡ (
          if str_eq token j
          then (if ltb t (now + g.ttl) then some (tool, digest tool args) else none)
          else memory_view g t j)
  unfolding request_in_memory
  memory_view-request token tool args now t g j h = elim (Bool-cases (str_eq token j)) [
    | inl e ↦ rw (lookup-insert, e) (ground arith)
    | inr e ↦ rw (lookup-insert, e) (view-evict now t g j h)
  ]

  redeem-result :
      (token tool : String) (args : Args) (now : ℕ) (g : MemoryGate) (o : Option Entry)
      → (redeem digest token tool args now g o).1 ≡ matches (live_at now o) tool (digest tool args)
  unfolding redeem
  redeem-result token tool args now g none = refl
  redeem-result token tool args now g (some e) = ground arith

  pub memory_consume-result :
      (token tool : String) (args : Args) (now : ℕ) (g : MemoryGate)
      → (consume_in_memory digest token tool args now g).1
        ≡ matches (memory_view g now token) tool (digest tool args)
  unfolding consume_in_memory
  memory_consume-result token tool args now g =
      redeem-result token tool args now g (lookup token g.pending)

  view-redeem :
      (token tool : String) (args : Args) (now t : ℕ) (g : MemoryGate) (j : String)
      (o : Option Entry)
      → now ≤ t
      → lookup token g.pending ≡ o
      → memory_view (redeem digest token tool args now g o).0 t j ≡ (
          if (redeem digest token tool args now g o).1 && str_eq token j
          then none
          else memory_view g t j)
  unfolding redeem
  view-redeem token tool args now t g j none h e = refl
  view-redeem token tool args now t g j (some x) h e =
      ground (arith, lookup-remove token j g.pending, eq_iff token j)

  pub memory_view-consume :
      (token tool : String) (args : Args) (now t : ℕ) (g : MemoryGate) (j : String)
      → now ≤ t
      → memory_view (consume_in_memory digest token tool args now g).0 t j ≡ (
          if (consume_in_memory digest token tool args now g).1 && str_eq token j
          then none
          else memory_view g t j)
  unfolding consume_in_memory
  memory_view-consume token tool args now t g j h =
      view-redeem token tool args now t g j (lookup token g.pending) h refl

  -- The in-memory gate implements the specification of a gate.
  abbrev pub memory_gate : Gate digest
  memory_gate = record {
    State = MemoryGate;
    ttl = λ g. g.ttl;
    view = memory_view;
    request = λ token tool args now g. (request_in_memory digest token tool args now now g).0;
    consume = consume_in_memory digest;
    view-request = memory_view-request;
    consume-result = memory_consume-result;
    view-consume = memory_view-consume;
  }
