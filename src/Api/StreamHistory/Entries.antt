-- ===== src/Api/StreamHistory/Entries.antt =====
-- api/main.py: the entries of an `OrderedDict`, and the search in them.
use sarvam.Prelude.{
  ◌≡◌, inl, inr, refl, sym, Bool, true, false, Option, none, List, [], ◌∷◌, ◌++◌, eq_iff, arith, ap,
  ◌∙◌, Bool-cases, if◌then◌else◌,
}
use sarvam.Api.StreamHistory.{Key, key_eq, find_thread, without}

pub key_eq_refl : (k : Key) → key_eq k k ≡ true
key_eq_refl k = ground (arith, eq_iff k.0 k.0, eq_iff k.1 k.1)

pub key_eq_sym : (a b : Key) → key_eq a b ≡ key_eq b a
key_eq_sym a b = ground (arith, eq_iff a.0 b.0, eq_iff a.1 b.1, eq_iff b.0 a.0, eq_iff b.1 a.1)

pub key_eq_trans : (a b c : Key) → key_eq a b ≡ true → key_eq a c ≡ key_eq b c
key_eq_trans a b c h = ground (
  arith,
  eq_iff a.0 b.0,
  eq_iff a.1 b.1,
  eq_iff b.0 c.0,
  eq_iff b.1 c.1,
  eq_iff a.0 c.0,
  eq_iff a.1 c.1,
)

module _ {M : Type 0} where
  -- No two entries have one key.
  pub data Distinct : List (Key × List M) → Type 0 where
    nil : Distinct []
    cons :
        (e : Key × List M) {d : List (Key × List M)}
        → find_thread M e.0 d ≡ none
        → Distinct d
        → Distinct (e ∷ d)

  pub find_thread-without :
      (k j : Key) (d : List (Key × List M))
      → find_thread M j (without M k d) ≡ (if key_eq k j then none else find_thread M j d)
  unfolding find_thread
  find_thread-without k j [] = ground arith
  find_thread-without k j ((i, h) ∷ d) = elim (Bool-cases (key_eq i k)) [
    | inl e ↦ rw (e, key_eq_trans i k j e) (find_thread-without k j d ∙ twice (key_eq k j) _ _)
    | inr e ↦ elim (Bool-cases (key_eq i j)) [
      | inl f ↦ rw (e, f, find_thread) (sym (kept (key_eq k j) _ (apart i k j f e)))
      | inr f ↦ rw (e, f, find_thread) (find_thread-without k j d)
    ]
  ]
    where
      twice :
          (b : Bool) (x y : Option (List M))
          → (if b then none else x) ≡ (if b then none else (if b then y else x))
      twice true x y = refl
      twice false x y = refl

      kept : (b : Bool) (x : Option (List M)) → b ≡ false → (if b then none else x) ≡ x
      kept b x e = rw e refl

      apart : (i k j : Key) → key_eq i j ≡ true → key_eq i k ≡ false → key_eq k j ≡ false
      apart i k j f e = key_eq_sym k j ∙ sym (key_eq_trans i j k f) ∙ e

  pub find_thread-append :
      (j : Key) (d e : List (Key × List M))
      → find_thread M j d ≡ none
      → find_thread M j (d ++ e) ≡ find_thread M j e
  unfolding find_thread
  find_thread-append j [] e p = refl
  find_thread-append j ((i, h) ∷ d) e p = elim (Bool-cases (key_eq i j)) [
    | inl hit ↦ absurd (cc (rw hit at p))
    | inr miss ↦ rw (miss, find_thread) (find_thread-append j d e (rw miss at p))
  ]

  pub find_thread-push :
      (j k : Key) (d : List (Key × List M)) (h : List M)
      → key_eq k j ≡ false
      → find_thread M j (d ++ ((k, h) ∷ [])) ≡ find_thread M j d
  unfolding find_thread
  find_thread-push j k [] h p = rw p refl
  find_thread-push j k ((i, g) ∷ d) h p = elim (Bool-cases (key_eq i j)) [
    | inl hit ↦ rw (hit, find_thread) refl
    | inr miss ↦ rw (miss, find_thread) (find_thread-push j k d h p)
  ]

  pub without-Distinct : (k : Key) (d : List (Key × List M)) → Distinct d → Distinct (without M k d)
  without-Distinct k [] h = nil
  without-Distinct k ((i, g) ∷ d) (cons _ p h) = elim (Bool-cases (key_eq i k)) [
    | inl e ↦ rw e (without-Distinct k d h)
    | inr e ↦ rw e (
        cons (i, g)
          (find_thread-without k i d
            ∙ ap (λ x. if key_eq k i then none else x) p
            ∙ either (key_eq k i))
          (without-Distinct k d h))
  ]
    where
      either : (b : Bool) → ◌≡◌ {A = Option (List M)} (if b then none else none) none
      either true = refl
      either false = refl

  pub push-Distinct :
      (k : Key) (h : List M) (d : List (Key × List M))
      → Distinct d
      → find_thread M k d ≡ none
      → Distinct (d ++ ((k, h) ∷ []))
  unfolding find_thread
  push-Distinct k h [] x p = cons (k, h) refl nil
  push-Distinct k h ((i, g) ∷ d) (cons _ q x) p = elim (Bool-cases (key_eq i k)) [
    | inl hit ↦ absurd (cc (rw hit at p))
    | inr miss ↦
        cons (i, g) (find_thread-push i k d h (key_eq_sym k i ∙ miss) ∙ q)
          (push-Distinct k h d x (rw miss at p))
  ]

  pub missing : (k : Key) (d : List (Key × List M)) → find_thread M k (without M k d) ≡ none
  missing k d =
      find_thread-without k k d ∙ ap (λ b. if b then none else find_thread M k d) (key_eq_refl k)
