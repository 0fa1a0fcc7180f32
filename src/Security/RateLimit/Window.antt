-- ===== src/Security/RateLimit/Window.antt =====
-- Runs of the limiter, the windows of time, and what one request does to the stored hits.
use sarvam.Prelude.{
  ltb→lt, ltb-false→le, ℕ, ◌+◌, ◌≤◌, ◌<◌, ◌≡◌, refl, ◌&&◌, List, [], ◌∷◌, ◌++◌, String, insert,
  lookup-insert, lookup-remove, length, length-append, ltb, leb, str_eq, if◌then◌else◌, arith, All,
  All-append, append_assoc, keep, keep-append, Bool-cases, inl, inr, length-keep-le,
}
use sarvam.Security.RateLimit.{Limiter, hits_of, drop_old, sweep, allow_in_memory}

-- Every request is a key and a time. The second part of the result maps each key to the times of
-- its admitted requests, the oldest first.
unfoldable pub serve : List (String × ℕ) → Limiter → (String → List ℕ) → Limiter × (String → List ℕ)
serve [] l admitted = (l, admitted)
serve ((key, now) ∷ calls) l admitted =
    let (l', ok) = allow_in_memory key now l in
    serve calls l' (λ k. if ok && str_eq key k then admitted k ++ now ∷ [] else admitted k)

-- How many admitted requests the window that ends at `t` holds.
abbrev pub in_window : ℕ → ℕ → List ℕ → ℕ
in_window window t hs = length (keep (λ h. leb h t && leb t (h + window)) hs)

-- The times do not go back.
abbrev pub IsOrdered : ℕ → List (String × ℕ) → Type 0
IsOrdered last [] = Unit
IsOrdered last ((key, now) ∷ calls) = (last ≤ now) × IsOrdered now calls

abbrev pub Old : ℕ → ℕ → ℕ → Type 0
Old window now h = h + window < now

-- The stored hits are what is left of a history when old hits have been dropped from its front.
pub record Tracks (window now : ℕ) (history hits : List ℕ) : Type 0 where
  pub dropped : List ℕ
  pub old : All (Old window now) dropped
  pub splits : history ≡ dropped ++ hits

All-Old_mono :
    (window now now' : ℕ) (hs : List ℕ)
    → now ≤ now'
    → All (Old window now) hs
    → All (Old window now') hs
All-Old_mono window now now' [] h a = tt
All-Old_mono window now now' (x ∷ hs) h a =
    (omega (arith, a.0), All-Old_mono window now now' hs h a.1)

drop_old-Tracks : (window now : ℕ) (hs : List ℕ) → Tracks window now hs (drop_old window now hs)
unfolding drop_old
drop_old-Tracks window now [] = record { dropped = []; old = tt; splits = refl }
drop_old-Tracks window now (h ∷ hs) =
    let t = drop_old-Tracks window now hs in
    elim (Bool-cases (ltb (h + window) now)) [
      | inl e ↦
          rw e (record {
            dropped = h ∷ t.dropped;
            old = (ground arith, t.old);
            splits = cc (t.splits);
          })
      | inr e ↦ rw e (record { dropped = []; old = tt; splits = refl })
    ]

pub Tracks-drop_old :
    (window last now : ℕ) (history hs : List ℕ)
    → last ≤ now
    → Tracks window last history hs
    → Tracks window now history (drop_old window now hs)
Tracks-drop_old window last now history hs h t =
    let d = drop_old-Tracks window now hs in
    record {
      dropped = t.dropped ++ d.dropped;
      old =
          All-append (Old window now) t.dropped d.dropped
            (All-Old_mono window last now t.dropped h t.old) d.old;
      splits = rw append_assoc (rw (← d.splits) t.splits);
    }

-- None of the dropped hits is in a window that ends now or later.
in_window-Old :
    (window now t : ℕ) (hs : List ℕ) → now ≤ t → All (Old window now) hs → in_window window t hs ≡ 0
in_window-Old window now t [] h a = refl
in_window-Old window now t (x ∷ hs) h a = ground (arith, in_window-Old window now t hs h a.1, a.0)

in_window-append :
    (window t : ℕ) (xs ys : List ℕ)
    → in_window window t (xs ++ ys) ≡ in_window window t xs + in_window window t ys
in_window-append window t xs ys = rw keep-append (length-append _ _)

pub Tracks-in_window :
    (window now t : ℕ) (history hs : List ℕ)
    → now ≤ t
    → Tracks window now history hs
    → in_window window t history ≤ length hs
Tracks-in_window window now t history hs h k =
    rw
      (
        k.splits,
        in_window-append window t k.dropped hs,
        in_window-Old window now t k.dropped h k.old,
      )
      (omega (arith, length-keep-le (λ x. leb x t && leb t (x + window)) hs))

hits_of-sweep :
    (now : ℕ) (key k : String) (l : Limiter)
    → hits_of k (sweep now key l).hits
      ≡ (if str_eq key k then drop_old l.window now (hits_of key l.hits) else hits_of k l.hits)
unfolding sweep
hits_of-sweep now key k l = ground (
  arith,
  lookup-insert key k (drop_old l.window now (hits_of key l.hits)) l.hits,
  lookup-remove key k (insert key (drop_old l.window now (hits_of key l.hits)) l.hits),
)

-- The hits of the key after the sweep of a request.
abbrev pub swept : String → ℕ → Limiter → List ℕ
swept key now l = drop_old l.window now (hits_of key l.hits)

pub allow-result :
    (key : String) (now : ℕ) (l : Limiter)
    → (allow_in_memory key now l).1 ≡ ltb (length (swept key now l)) l.max_requests
unfolding allow_in_memory
allow-result key now l = ground arith

pub hits_of-allow :
    (key : String) (now : ℕ) (k : String) (l : Limiter)
    → hits_of k (allow_in_memory key now l).0.hits ≡ (
        if str_eq key k
        then (if (allow_in_memory key now l).1
            then swept key now l ++ now ∷ []
            else swept key now l)
        else hits_of k l.hits)
unfolding allow_in_memory
hits_of-allow key now k l = elim (Bool-cases (leb l.max_requests (length (swept key now l)))) [
  | inl e ↦ rw e (hits_of-sweep now key k l)
  | inr e ↦ rw e (
      ground (
        arith,
        hits_of-sweep now key k l,
        lookup-insert key k (swept key now l ++ now ∷ []) (sweep now key l).hits,
      ))
]

pub allow_config :
    (key : String) (now : ℕ) (l : Limiter)
    → ((allow_in_memory key now l).0.window ≡ l.window)
      × ((allow_in_memory key now l).0.max_requests ≡ l.max_requests)
unfolding allow_in_memory
allow_config key now l = ground arith

pub Tracks-snoc :
    (window now : ℕ) (history hs : List ℕ)
    → Tracks window now history hs
    → Tracks window now (history ++ now ∷ []) (hs ++ now ∷ [])
Tracks-snoc window now history hs t = record {
  dropped = t.dropped;
  old = t.old;
  splits = rw (t.splits, append_assoc);
}

pub Tracks-later :
    (window last now : ℕ) (history hs : List ℕ)
    → last ≤ now
    → Tracks window last history hs
    → Tracks window now history hs
Tracks-later window last now history hs h t = record {
  dropped = t.dropped;
  old = All-Old_mono window last now t.dropped h t.old;
  splits = t.splits;
}

-- A hit that is admitted now is in no window that ends before.
in_window-snoc_before :
    (window t now : ℕ) (hs : List ℕ)
    → t < now
    → in_window window t (hs ++ now ∷ []) ≡ in_window window t hs
in_window-snoc_before window t now hs h =
    rw (in_window-append window t hs (now ∷ [])) (ground arith)

pub capped-snoc :
    (window most now t : ℕ) (history hs : List ℕ)
    → Tracks window now history hs
    → length hs < most
    → in_window window t history ≤ most
    → in_window window t (history ++ now ∷ []) ≤ most
capped-snoc window most now t history hs k room c = elim (Bool-cases (ltb t now)) [
  | inl e ↦ rw (in_window-snoc_before window t now history (ltb→lt t now e)) c
  | inr e ↦
      rw (in_window-append window t history (now ∷ []))
        (ground (arith, Tracks-in_window window now t history hs (ltb-false→le t now e) k))
]
