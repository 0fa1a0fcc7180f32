-- ===== src/Security/RateLimit/Limit.antt =====
-- The limit holds in every window of time, over any run of requests, for every key at once.
use sarvam.Prelude.{
  ℕ, ◌≤◌, ◌<◌, ◌≡◌, refl, Bool, true, ◌&&◌, List, [], ◌∷◌, ◌++◌, String, lookup, length, str_eq,
  if◌then◌else◌, arith, All, All-append, Bool-cases, inl, inr, ltb→lt, sym, ◌∙◌, eq_iff,
}
use sarvam.Security.RateLimit.{Limiter, hits_of, allow_in_memory}
use sarvam.Security.RateLimit.Window.{
  serve, in_window, IsOrdered, Tracks, Tracks-drop_old, allow-result, hits_of-allow, allow_config,
  swept, Tracks-snoc, Tracks-later, capped-snoc,
}

-- What holds of the limiter and the admitted requests after a request at time `last`.
record Inv (last : ℕ) (l : Limiter) (admitted : String → List ℕ) : Type 0 where
  tracks : (k : String) → Tracks l.window last (admitted k) (hits_of k l.hits)
  past : (k : String) → All (λ h. h ≤ last) (admitted k)
  capped : (k : String) (t : ℕ) → in_window l.window t (admitted k) ≤ l.max_requests

record_hit : String → ℕ → Bool → (String → List ℕ) → String → List ℕ
record_hit key now ok admitted k = if ok && str_eq key k then admitted k ++ now ∷ [] else admitted k

All-le_mono : (a b : ℕ) (hs : List ℕ) → a ≤ b → All (λ h. h ≤ a) hs → All (λ h. h ≤ b) hs
All-le_mono a b [] h x = tt
All-le_mono a b (y ∷ hs) h x = (omega (arith, x.0), All-le_mono a b hs h x.1)

past-step :
    (last now : ℕ) (key : String) (ok : Bool) (admitted : String → List ℕ) (k : String)
    → last ≤ now
    → All (λ h. h ≤ last) (admitted k)
    → All (λ h. h ≤ now) (record_hit key now ok admitted k)
unfolding record_hit
past-step last now key ok admitted k h p = elim (Bool-cases (ok && str_eq key k)) [
  | inl e ↦ rw e (
      All-append (λ x. x ≤ now) (admitted k) (now ∷ []) (All-le_mono last now _ h p)
        (omega arith, tt))
  | inr e ↦ rw e (All-le_mono last now _ h p)
]

self_eq : (t : String) → str_eq t t ≡ true
self_eq t = (eq_iff t t).1 refl

-- A request whose time is not before `last`, from a limiter with the invariant.
module _ (last now : ℕ) (key : String) (l : Limiter) (admitted : String → List ℕ) (h : last ≤ now)
    (v : Inv last l admitted) where
  ok : Bool
  ok = (allow_in_memory key now l).1

  swept-Tracks : Tracks l.window now (admitted key) (swept key now l)
  swept-Tracks = Tracks-drop_old l.window last now _ _ h (v.tracks key)

  room : ok ≡ true → length (swept key now l) < l.max_requests
  unfolding ok
  room e = ltb→lt _ _ (sym (allow-result key now l) ∙ e)

  Tracks-self :
      Tracks l.window now
        (record_hit key now ok admitted key)
        (hits_of key (allow_in_memory key now l).0.hits)
  unfolding record_hit ok
  Tracks-self = elim (Bool-cases (allow_in_memory key now l).1) [
    | inl e ↦ rw (hits_of-allow, self_eq key, e) (Tracks-snoc _ _ _ _ swept-Tracks)
    | inr e ↦ rw (hits_of-allow, self_eq key, e) swept-Tracks
  ]

  Tracks-step :
      (k : String)
      → Tracks l.window now
          (record_hit key now ok admitted k)
          (hits_of k (allow_in_memory key now l).0.hits)
  unfolding record_hit ok
  Tracks-step k = elim (Bool-cases (str_eq key k)) [
    | inl e ↦ rw (← (eq_iff key k).0 e) Tracks-self
    | inr e ↦ elim (Bool-cases (allow_in_memory key now l).1) [
      | inl y ↦ rw (hits_of-allow, e, y) (Tracks-later _ _ _ _ _ h (v.tracks k))
      | inr y ↦ rw (hits_of-allow, e, y) (Tracks-later _ _ _ _ _ h (v.tracks k))
    ]
  ]

  capped_self : (t : ℕ) → in_window l.window t (record_hit key now ok admitted key) ≤ l.max_requests
  unfolding record_hit
  capped_self t = elim (Bool-cases ok) [
    | inl e ↦ rw (self_eq key, e) (capped-snoc _ _ _ t _ _ swept-Tracks (room e) (v.capped key t))
    | inr e ↦ rw e (v.capped key t)
  ]

  capped-step :
      (k : String) (t : ℕ)
      → in_window l.window t (record_hit key now ok admitted k) ≤ l.max_requests
  unfolding record_hit
  capped-step k t = elim (Bool-cases (str_eq key k)) [
    | inl e ↦ rw (← (eq_iff key k).0 e) (capped_self t)
    | inr e ↦ elim (Bool-cases ok) [
      | inl y ↦ rw (e, y) (v.capped k t)
      | inr y ↦ rw (e, y) (v.capped k t)
    ]
  ]

  step-Inv : Inv now (allow_in_memory key now l).0 (record_hit key now ok admitted)
  step-Inv = record {
    tracks = λ k. rw ((allow_config key now l).0) (Tracks-step k);
    past = λ k. past-step last now key ok admitted k h (v.past k);
    capped = λ k t. rw ((allow_config key now l).0, (allow_config key now l).1) (capped-step k t);
  }

serve-Inv :
    (calls : List (String × ℕ)) (last : ℕ) (l : Limiter) (admitted : String → List ℕ)
    → IsOrdered last calls
    → Inv last l admitted
    → (k : String) (t : ℕ) → in_window l.window t ((serve calls l admitted).1 k) ≤ l.max_requests
unfolding serve ok record_hit
serve-Inv [] last l admitted o v k t = v.capped k t
serve-Inv ((key, now) ∷ calls) last l admitted o v k t =
    let c = allow_config key now l in
    let v' = step-Inv last now key l admitted o.0 v in
    let r =
      serve-Inv calls now (allow_in_memory key now l).0
        (record_hit key now (allow_in_memory key now l).1 admitted) o.1 v' k t in
    rw (c.0, c.1) at r

-- From a limiter with no hits, over any run of requests whose times do not go back: for every key,
-- every window of time holds at most `max_requests` admitted requests.
pub window_limit :
    (l : Limiter) (calls : List (String × ℕ)) (k : String) (t : ℕ)
    → l.hits ≡ []
    → IsOrdered 0 calls
    → in_window l.window t ((serve calls l (λ _. [])).1 k) ≤ l.max_requests
unfolding hits_of lookup
window_limit l calls k t e o = serve-Inv calls 0 l (λ _. []) o initial k t
  where
    initial : Inv 0 l (λ _. [])
    initial = record {
      tracks = λ j. record { dropped = []; old = tt; splits = rw e };
      past = λ j. tt;
      capped = λ j u. omega arith;
    }
