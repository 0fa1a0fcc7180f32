-- ===== src/Agents/SelfCheck/Verdict.antt =====
-- What a passed self-check says of the draft.
use sarvam.Prelude.{
  ℕ, ◌*◌, ◌<◌, ◌≤◌, ◌≡◌, ◌≢◌, ◌⊎◌, inl, inr, [], ◌∷◌, keep, length, ltb, refl, not, ◌&&◌, is_empty,
  Bool, true, false, Option, none, some, String, Text, any, contains, arith,
}
use sarvam.Agents.Unicode.{Unicode}
use sarvam.Agents.Directive.{Script, is_latin_script}
use sarvam.Agents.SelfCheck.{
  count_words, markdown_markers, shape_violation, script_violation_in, draft_violation, self_check,
}
use sarvam.LlmAdapter.Messages.{ok, Providers}
use sarvam.LlmAdapter.Router.{Router}
use sarvam.Supervisor.Session.{Mode, is_voice}

-- The limits that need no model: at most 300 words without markdown for speech, at most 500 for text.
pub Shapely : Unicode → Bool → Text → Type 0
Shapely u true draft =
    (count_words u false draft ≤ 300) × (any (λ m. contains draft m) markdown_markers ≡ false)
Shapely u false draft = count_words u false draft ≤ 500

shape-Shapely :
    (u : Unicode) (voice : Bool) (draft : Text)
    → shape_violation u voice draft ≡ none
    → Shapely u voice draft
unfolding Shapely shape_violation
shape-Shapely u true draft h = ground arith
shape-Shapely u false draft h = ground arith

draft-checks :
    (u : Unicode) (voice : Bool) (expected : Option Script) (language : Option String)
    (draft : Text)
    → draft_violation u voice expected language draft ≡ none
    → (shape_violation u voice draft ≡ none)
      × (script_violation_in u expected language draft ≡ none)
unfolding draft_violation
draft-checks u voice expected language draft h = ground arith

-- The letters of a text, and those of them that are Latin without marks.
abbrev letters : Unicode → Text → Text
letters u draft = keep u.is_alpha draft

abbrev latin_letters : Unicode → Text → Text
latin_letters u draft = keep (λ c. ltb c 128) (letters u draft)

-- More than eight in ten letters are plain Latin where the romanized form was expected; at most so
-- many, or no letters at all, where the language's own script was.
pub InScript : Unicode → Option Script → Text → Type 0
InScript u none draft = Unit
InScript u (some Script.native) draft =
    (letters u draft ≡ []) ⊎ (10 * length (latin_letters u draft) ≤ 8 * length (letters u draft))
InScript u (some Script.latin) draft =
    (letters u draft ≢ []) × (8 * length (letters u draft) < 10 * length (latin_letters u draft))

latin-share :
    (u : Unicode) (draft : Text)
    → is_latin_script u draft ≡ true
    → (letters u draft ≢ []) × (8 * length (letters u draft) < 10 * length (latin_letters u draft))
unfolding is_latin_script
latin-share u draft h = ground arith

either : (xs : Text) (a b : ℕ) → not (is_empty xs) && ltb a b ≡ false → (xs ≡ []) ⊎ (b ≤ a)
either [] a b h = inl refl
either (x ∷ xs) a b h = inr (ground arith)

native-share :
    (u : Unicode) (draft : Text)
    → is_latin_script u draft ≡ false
    → (letters u draft ≡ []) ⊎ (10 * length (latin_letters u draft) ≤ 8 * length (letters u draft))
unfolding is_latin_script
native-share u draft h = either (letters u draft) _ _ h

script-InScript :
    (u : Unicode) (expected : Option Script) (language : Option String) (draft : Text)
    → script_violation_in u expected language draft ≡ none
    → InScript u expected draft
unfolding InScript script_violation_in
script-InScript u none language draft h = tt
script-InScript u (some Script.native) language draft h = native-share u draft (ground arith)
script-InScript u (some Script.latin) language draft h = latin-share u draft (ground arith)

module _ {Obj W : Type 0} (u : Unicode) (ps : Providers Obj W) where
  passed :
      (draft : Text) (mode : Mode) (language : Option String) (mixed : Bool)
      (expected : Option Script) (r : Router ps.P) (w : W) (reason : Text)
      → (self_check u ps draft mode language mixed expected r w).outcome ≡ ok (true, reason)
      → draft_violation u (is_voice mode) expected language draft ≡ none
  unfolding self_check
  passed draft mode language mixed expected r w reason h = ground arith

  -- A draft that passes the self-check, whatever the model said of it, is within the limits of its
  -- mode on length and markdown, and is in the script that was expected: of its letters
  -- more than eight in ten are plain Latin where a romanized answer was, and no more than that, or it
  -- has no letters, where the own script of the language was.
  pub self_check-Shapely :
      (draft : Text) (mode : Mode) (language : Option String) (mixed : Bool)
      (expected : Option Script) (r : Router ps.P) (w : W) (reason : Text)
      → (self_check u ps draft mode language mixed expected r w).outcome ≡ ok (true, reason)
      → Shapely u (is_voice mode) draft × InScript u expected draft
  self_check-Shapely draft mode language mixed expected r w reason h =
      let (shape, script) =
        draft-checks u (is_voice mode) expected language draft
          (passed draft mode language mixed expected r w reason h) in
      (
        shape-Shapely u (is_voice mode) draft shape,
        script-InScript u expected language draft script,
      )
