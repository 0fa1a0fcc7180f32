-- ===== src/Agents/Unicode.antt =====
-- What the program asks of the interpreter's Unicode tables.
use sarvam.Prelude.{ℕ, ◌+◌, ◌-◌, Bool, ◌&&◌, ◌||◌, Text, map, leb, ◌==◌, if◌then◌else◌}

pub record Unicode : Type 0 where
  pub is_alpha : ℕ → Bool
  pub is_space : ℕ → Bool
  pub is_word : ℕ → Bool
  pub is_digit : ℕ → Bool
  pub lower : Text → Text
  pub upper : Text → Text

-- The tables restricted to ASCII, for tests and witnesses.
abbrev is_letter : ℕ → Bool
is_letter c = (leb b'a' c && leb c b'z') || (leb b'A' c && leb c b'Z')

abbrev lower_letter : ℕ → ℕ
lower_letter c = if leb b'A' c && leb c b'Z' then c + 32 else c

abbrev upper_letter : ℕ → ℕ
upper_letter c = if leb b'a' c && leb c b'z' then c - 32 else c

abbrev pub ascii : Unicode
ascii = record {
  is_alpha = is_letter;
  is_space = λ c. (c == 32) || (leb 9 c && leb c 13);
  is_word = λ c. is_letter c || ((leb b'0' c && leb c b'9') || (c == b'_'));
  is_digit = λ c. leb b'0' c && leb c b'9';
  lower = map lower_letter;
  upper = map upper_letter;
}
