-- ===== src/LlmAdapter/Router/Usable.antt =====
-- Which providers a call tries: those that are not cooling down, and all of them if all are.
use sarvam.Prelude.{
  ℕ, ◌≤◌, ◌<◌, ◌≡◌, ◌⊎◌, inl, inr, refl, Bool, true, false, List, [], ◌∷◌, String, keep, leb,
  is_empty, All, Bool-cases, leb→le, leb-false→lt,
}
use sarvam.LlmAdapter.Router.{Router, limited_until, usable_providers}

is_empty-eq {ℓ} : {A : Type ℓ} (xs : List A) → is_empty xs ≡ true → xs ≡ []
is_empty-eq [] h = refl
is_empty-eq (x ∷ xs) h = cc

module _ {P : Type 0} (name : P → String) where
  All-keep : (q : P → Bool) (ps : List P) → All (λ p. q p ≡ true) (keep q ps)
  All-keep q [] = tt
  All-keep q (p ∷ ps) = elim (Bool-cases (q p)) [
    | inl e ↦ rw e (e, All-keep q ps)
    | inr e ↦ rw e (All-keep q ps)
  ]

  None-keep : (q : P → Bool) (ps : List P) → keep q ps ≡ [] → All (λ p. q p ≡ false) ps
  None-keep q [] h = tt
  None-keep q (p ∷ ps) h = elim (Bool-cases (q p)) [
    | inl e ↦ absurd (cc (rw e at h))
    | inr e ↦ (e, None-keep q ps (rw e at h))
  ]

  All-map : (A B : P → Type 0) → ((p : P) → A p → B p) → (ps : List P) → All A ps → All B ps
  All-map A B f [] h = tt
  All-map A B f (p ∷ ps) h = (f p h.0, All-map A B f ps h.1)

  -- Of the providers that a call tries none is cooling down; or else all of the router's providers
  -- are, and the call tries all of them, in their order.
  pub usable_providers-choice :
      (now : ℕ) (r : Router P)
      → All (λ p. limited_until name r p ≤ now) (usable_providers name now r)
        ⊎ (usable_providers name now r ≡ r.providers)
          × All (λ p. now < limited_until name r p) r.providers
  unfolding usable_providers
  usable_providers-choice now r =
      elim (Bool-cases (is_empty (keep (λ p. leb (limited_until name r p) now) r.providers))) [
        | inl e ↦ inr (
          rw e,
          All-map (λ p. leb (limited_until name r p) now ≡ false)
              (λ p. now < limited_until name r p) (λ p h. leb-false→lt _ _ h) r.providers
              (None-keep _ r.providers (is_empty-eq _ e)),
        )
        | inr e ↦ inl (
            rw e (
              All-map (λ p. leb (limited_until name r p) now ≡ true)
                (λ p. limited_until name r p ≤ now) (λ p h. leb→le _ _ h) _
                (All-keep (λ p. leb (limited_until name r p) now) r.providers)))
      ]
