-- ===== src/Agents/TaskAgent/Stream/Sniff.antt =====
-- agents/task_agent.py: what `_sniff_and_forward` lets through.
use sarvam.Prelude.{
  ◌≤◌, ◌<◌, ◌≡◌, ◌≢◌, ◌⊎◌, inl, inr, refl, true, false, Option, none, some, List, [], ◌∷◌, ◌++◌,
  String, Text, length, length-append, append_assoc, append-nil, ap, ◌∙◌, arith, Bool-cases, leb,
  is_empty,
}
use sarvam.Agents.ToolCall.{looks_like_tool_call_attempt}
use sarvam.Agents.TaskAgent.Sniffing.{
  StreamEnd, finished, tool_call_detected, failed, end_of, sniff_on, sniff_and_forward,
  tool_call_sniff_chars,
}
use sarvam.LlmAdapter.Messages.{Failure, Streamed}

-- `"".join(texts)`
abbrev pub concat : List Text → Text
concat [] = []
concat (t ∷ ts) = t ++ concat ts

-- The window of a text: its beginning, of at least 200 characters or all of the text.
pub record Window (text seen rest : Text) : Type 0 where
  pub whole : seen ++ rest ≡ text
  pub wide : (200 ≤ length seen) ⊎ (rest ≡ [])

-- What a stream with some text and some failure may become.
pub data Sniffed (names : List String) (text : Text) (failure : Option Failure)
    : List Text × StreamEnd → Type 0 where
  attempted :
      (seen rest : Text)
      → Window text seen rest
      → looks_like_tool_call_attempt seen names ≡ true
      → Sniffed names text failure ([], tool_call_detected)
  broken :
      (e : Failure)
      → failure ≡ some e
      → length text < 200
      → Sniffed names text failure ([], failed e)
  silent : failure ≡ none → text ≡ [] → Sniffed names text failure ([], finished)
  forwarded :
      (first : Text) (others : List Text)
      → Window text first (concat others)
      → looks_like_tool_call_attempt first names ≡ false
      → Sniffed names text failure (first ∷ others, end_of failure)

is_empty-nil : (t : Text) → is_empty t ≡ true → t ≡ []
is_empty-nil [] h = refl
is_empty-nil (c ∷ t) h = cc

sniff_on-Sniffed :
    (names : List String) (b : Text) (ds : List Text) (failure : Option Failure)
    → length b < 200
    → Sniffed names (b ++ concat ds) failure (sniff_on names b ds failure)
unfolding sniff_on
sniff_on-Sniffed names b [] (some e) h = broken e refl (rw (append-nil b) h)
sniff_on-Sniffed names b [] none h = elim (Bool-cases (looks_like_tool_call_attempt b names)) [
  | inl hit ↦ rw hit (attempted b [] (record { whole = refl; wide = inr refl }) hit)
  | inr miss ↦ elim (Bool-cases (is_empty b)) [
    | inl nothing ↦ rw (miss, nothing) (silent refl (append-nil b ∙ is_empty-nil b nothing))
    | inr filled ↦
        rw (miss, filled) (forwarded b [] (record { whole = refl; wide = inr refl }) miss)
  ]
]
sniff_on-Sniffed names b (d ∷ ds) failure h =
    let joined : (b ++ d) ++ concat ds ≡ b ++ concat (d ∷ ds) = append_assoc b d (concat ds) in
    elim (Bool-cases (leb tool_call_sniff_chars (length (b ++ d)))) [
      | inr short ↦
          rw (short, sniff_on, ← joined) (sniff_on-Sniffed names (b ++ d) ds failure (ground arith))
      | inl full ↦ elim (Bool-cases (looks_like_tool_call_attempt (b ++ d) names)) [
        | inl hit ↦
            rw (full, hit, sniff_on)
              (attempted (b ++ d) (concat ds) (record { whole = joined; wide = inl (ground arith) })
                hit)
        | inr miss ↦
            rw (full, miss, sniff_on)
              (forwarded (b ++ d) ds (record { whole = joined; wide = inl (ground arith) }) miss)
      ]
    ]

pub sniff_and_forward-Sniffed :
    (names : List String) (raw : Streamed)
    → Sniffed names (concat raw.chunks) raw.failure (sniff_and_forward names raw)
unfolding sniff_and_forward
sniff_and_forward-Sniffed names raw = sniff_on-Sniffed names [] raw.chunks raw.failure (omega arith)

-- A stream that fails in the window.
sniff_on-broken :
    (names : List String) (b : Text) (ds : List Text) (e : Failure)
    → length (b ++ concat ds) < 200
    → sniff_on names b ds (some e) ≡ ([], failed e)
unfolding sniff_on
sniff_on-broken names b [] e h = refl
sniff_on-broken names b (d ∷ ds) e h =
    let joined : (b ++ d) ++ concat ds ≡ b ++ concat (d ∷ ds) = append_assoc b d (concat ds) in
    let short : leb 200 (length (b ++ d)) ≡ false = ground (
      arith,
      joined,
      length-append b (d ++ concat ds),
      length-append b d,
      length-append d (concat ds),
    ) in
    rw (short, sniff_on) (sniff_on-broken names (b ++ d) ds e (rw joined h))

pub sniff_and_forward-broken :
    (names : List String) (raw : Streamed) (e : Failure)
    → raw.failure ≡ some e
    → length (concat raw.chunks) < 200
    → sniff_and_forward names raw ≡ ([], failed e)
unfolding sniff_and_forward
sniff_and_forward-broken names raw e p short =
    ap (λ f. sniff_on names [] raw.chunks f) p ∙ sniff_on-broken names [] raw.chunks e short

end_of-failed : (f : Option Failure) (e : Failure) → end_of f ≡ failed e → f ≡ some e
end_of-failed none e h = cc
end_of-failed (some x) e h = cc

Sniffed-failed :
    {names : List String} {text : Text} {f : Option Failure} {r : List Text × StreamEnd}
    (e : Failure)
    → Sniffed names text f r
    → r.1 ≡ failed e
    → f ≡ some e
Sniffed-failed e (attempted seen rest w hit) h = cc
Sniffed-failed e (broken x p l) h = cc
Sniffed-failed e (silent p l) h = cc
Sniffed-failed {f = f} e (forwarded first others w miss) h = end_of-failed f e h

-- A sniffed stream fails only as the stream itself does.
pub sniff_and_forward-failed :
    (names : List String) (raw : Streamed) (e : Failure)
    → (sniff_and_forward names raw).1 ≡ failed e
    → raw.failure ≡ some e
sniff_and_forward-failed names raw e h = Sniffed-failed e (sniff_and_forward-Sniffed names raw) h

end_of-tool : (f : Option Failure) → end_of f ≢ tool_call_detected
end_of-tool none h = cc
end_of-tool (some e) h = cc

-- Where a tool call is detected nothing was forwarded.
pub Sniffed-detected :
    {names : List String} {text : Text} {f : Option Failure} {r : List Text × StreamEnd}
    → Sniffed names text f r
    → r.1 ≡ tool_call_detected
    → r ≡ ([], tool_call_detected)
Sniffed-detected (attempted seen rest w hit) h = refl
Sniffed-detected (broken e p l) h = cc
Sniffed-detected (silent p l) h = cc
Sniffed-detected {f = f} (forwarded first others w miss) h = absurd (end_of-tool f h)
