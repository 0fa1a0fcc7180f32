-- ===== src/LlmAdapter/Router/Fallback.antt =====
-- Which provider answers, and who was asked before it.
use sarvam.Prelude.{
  ◌≡◌, refl, true, false, Option, none, some, List, [], ◌∷◌, ◌++◌, String, ℕ, Bool-cases, inl, inr,
  ◌⊎◌, is_empty, arith, ap, not, ◌||◌, ◌≢◌,
}
use sarvam.LlmAdapter.Http.{ProviderError}
use sarvam.LlmAdapter.Messages.{Outcome, ok, err, Failure, provider_error, other_error, Streamed}
use sarvam.LlmAdapter.Router.{Router, attempt, attempt_stream, no_providers}

-- An outcome that ends the search: a result, or an error that is not retriable.
abbrev pub Decides {ℓ} : {A : Type ℓ} → Outcome A → Type 0
Decides (ok a) = Unit
Decides (err e) = e.retriable ≡ false

module _ {P W A : Type 0} (call : P → W → Outcome A × W) where
  -- The providers are asked in order, from the first world to the second; all fail with a retriable
  -- error, and the last error is given.
  pub data AllFail : List P → Option ProviderError → W → Option ProviderError → W → Type 0 where
    nobody : {last : Option ProviderError} {w : W} → AllFail [] last w last w
    asked :
        {p : P} {ps : List P} {last final : Option ProviderError} {w w' w'' : W} (e : ProviderError)
        → call p w ≡ (err e, w')
        → e.retriable ≡ true
        → AllFail ps (some e) w' final w''
        → AllFail (p ∷ ps) last w final w''

  -- What a search over `ps` ends with: the decisive outcome of one provider, all before it having
  -- failed and none after it being asked; or, when all have failed, the last error.
  pub data Answers (ps : List P) (last : Option ProviderError) (w : W) (o : Outcome A) (w' : W)
      : Type 0 where
    decided :
        (before after : List P) (p : P) (e : Option ProviderError) (u : W)
        → ps ≡ before ++ p ∷ after
        → AllFail before last w e u
        → call p u ≡ (o, w')
        → Decides o
        → Answers ps last w o w'
    exhausted :
        (e : ProviderError) → AllFail ps last w (some e) w' → o ≡ err e → Answers ps last w o w'
    unconfigured : ps ≡ [] → last ≡ none → o ≡ err no_providers → w' ≡ w → Answers ps last w o w'

  Answers-later :
      {p : P} {ps : List P} {last : Option ProviderError} {w w' : W} {o : Outcome A} {v : W}
      (e : ProviderError)
      → call p w ≡ (err e, w')
      → e.retriable ≡ true
      → Answers ps (some e) w' o v
      → Answers (p ∷ ps) last w o v
  Answers-later {p} e c r (decided before after q x u s f d k) =
      decided (p ∷ before) after q x u (ap (λ t. p ∷ t) s) (asked e c r f) d k
  Answers-later e c r (exhausted x f d) = exhausted x (asked e c r f) d
  Answers-later e c r (unconfigured s l o v) = cc

Outcome-cases {ℓ} :
    {A : Type ℓ} (o : Outcome A) → ((a : A) × (o ≡ ok a)) ⊎ ((e : ProviderError) × (o ≡ err e))
Outcome-cases (ok a) = inl (a, refl)
Outcome-cases (err e) = inr (e, refl)

module _ {P W A : Type 0} (name : P → String) (clock : W → ℕ) (call : P → W → Outcome A × W) where
  -- What one round of the loop makes of the answer for the rest of the list.
  attempt-cons :
      (p : P) (ps : List P) (last : Option ProviderError) (r : Router P) (w : W)
      → ((e : ProviderError) (r' : Router P) (w' : W)
          → Answers call ps
              (some e)
              w'
              (attempt name clock call ps (some e) r' w').outcome
              (attempt name clock call ps (some e) r' w').world)
      → Answers call
          (p ∷ ps)
          last
          w
          (attempt name clock call (p ∷ ps) last r w).outcome
          (attempt name clock call (p ∷ ps) last r w).world
  unfolding attempt
  attempt-cons p ps last r w ih = elim (Outcome-cases (call p w).0) [
    | inl (a, q) ↦
        rw (q, attempt) (decided [] ps p last w refl nobody (λ i. (q i, (call p w).1)) tt)
    | inr (e, q) ↦ elim (Bool-cases e.retriable) [
      | inl y ↦ rw (q, attempt, y) (Answers-later call e (λ i. (q i, (call p w).1)) y (ih e _ _))
      | inr n ↦ rw (q, attempt, n) (decided [] ps p last w refl nobody (λ i. (q i, (call p w).1)) n)
    ]
  ]

  -- The search over a list of providers ends with the decisive outcome of one of them, all before it
  -- having been asked in order and having failed with a retriable error, and none after it having
  -- been asked; or all have failed so and the last error is the outcome; or the list is empty and so
  -- is the memory of errors, and the outcome is the error for that.
  pub attempt-Answers :
      (ps : List P) (last : Option ProviderError) (r : Router P) (w : W)
      → Answers call ps last w
          (attempt name clock call ps last r w).outcome
          (attempt name clock call ps last r w).world
  attempt-Answers [] none r w = unfold attempt in unconfigured refl refl refl refl
  attempt-Answers [] (some e) r w = unfold attempt in exhausted e nobody refl
  attempt-Answers (p ∷ ps) last r w =
      attempt-cons p ps last r w (λ e r' w'. attempt-Answers ps (some e) r' w')

module _ {P W : Type 0} (name : P → String) (clock : W → ℕ) (call : P → W → Streamed × W) where
  -- What a stream hands on: the chunks of the one provider that was not passed over. Every provider
  -- before it failed with a retriable error before its first chunk; `last` is the error of the one
  -- asked last.
  pub data StreamsFrom : List P → Option ProviderError → W → Streamed → W → Type 0 where
    taken :
        (p : P) (rest : List P) (last : Option ProviderError) (w w' : W) (s : Streamed)
        → call p w ≡ (s, w')
        → (s.failure ≡ none)
          ⊎ (s.failure ≡ some other_error)
          ⊎ ((e : ProviderError) × (s.failure ≡ some (provider_error e))
              × ((s.chunks ≢ []) ⊎ (e.retriable ≡ false)))
        → StreamsFrom (p ∷ rest) last w s w'
    passed :
        (p : P) (rest : List P) (last : Option ProviderError) (w u w' : W) (s t : Streamed)
        (e : ProviderError)
        → call p w ≡ (t, u)
        → t.chunks ≡ []
        → t.failure ≡ some (provider_error e)
        → e.retriable ≡ true
        → StreamsFrom rest (some e) u s w'
        → StreamsFrom (p ∷ rest) last w s w'
    all_failed :
        (e : ProviderError) (w : W)
        → StreamsFrom [] (some e) w (record { chunks = []; failure = some (provider_error e) }) w
    unconfigured_stream :
        (w : W)
        → StreamsFrom [] none w
            (record { chunks = []; failure = some (provider_error no_providers) })
            w

  Failure-cases :
      (f : Option Failure)
      → (f ≡ none) ⊎ (f ≡ some other_error) ⊎ ((e : ProviderError) × (f ≡ some (provider_error e)))
  Failure-cases none = inl refl
  Failure-cases (some other_error) = inr (inl refl)
  Failure-cases (some (provider_error e)) = inr (inr (e, refl))

  attempt_stream-cons :
      (p : P) (ps : List P) (last : Option ProviderError) (r : Router P) (w : W)
      → ((e : ProviderError) (r' : Router P) (w' : W)
          → StreamsFrom ps
              (some e)
              w'
              (attempt_stream name clock call ps (some e) r' w').outcome
              (attempt_stream name clock call ps (some e) r' w').world)
      → StreamsFrom
          (p ∷ ps)
          last
          w
          (attempt_stream name clock call (p ∷ ps) last r w).outcome
          (attempt_stream name clock call (p ∷ ps) last r w).world
  unfolding attempt_stream
  attempt_stream-cons p ps last r w ih = elim (Failure-cases (call p w).0.failure) [
    | inl q ↦ rw (q, attempt_stream) (taken p ps last w _ _ refl (inl q))
    | inr (inl q) ↦ rw (q, attempt_stream) (taken p ps last w _ _ refl (inr (inl q)))
    | inr (inr (e, q)) ↦ elim (Bool-cases (not (is_empty (call p w).0.chunks) || not e.retriable)) [
      | inl y ↦
          rw (q, attempt_stream, y) (taken p ps last w _ _ refl (inr (inr (e, q, ground arith))))
      | inr n ↦
          rw (q, attempt_stream, n)
            (passed p ps last w _ _ _ _ e refl (ground arith) q (ground arith) (ih e _ _))
    ]
  ]

  -- The chunks that a stream hands on, and the error that it ends with if it fails, are those of one
  -- provider: it ended well, or broke off with an exception that is no provider error, or failed
  -- after a chunk had gone out, or failed with an error that is not retriable. Every provider before
  -- it was asked in order and failed with a retriable error before its first chunk. If all failed so,
  -- no chunk goes out and the stream ends with the error of the last of them; and a router without
  -- providers ends it with the error for that.
  pub attempt_stream-StreamsFrom :
      (ps : List P) (last : Option ProviderError) (r : Router P) (w : W)
      → StreamsFrom ps last w
          (attempt_stream name clock call ps last r w).outcome
          (attempt_stream name clock call ps last r w).world
  attempt_stream-StreamsFrom [] none r w = unfold attempt_stream in unconfigured_stream w
  attempt_stream-StreamsFrom [] (some e) r w = unfold attempt_stream in all_failed e w
  attempt_stream-StreamsFrom (p ∷ ps) last r w =
      attempt_stream-cons p ps last r w (λ e r' w'. attempt_stream-StreamsFrom ps (some e) r' w')
