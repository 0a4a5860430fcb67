-- ===== src/Text.antt =====
-- Functions of Go's standard library on text that rest on Unicode tables or on a regular expression
-- engine: strings.ToLower, strings.TrimSpace and regexp.Compile with MatchString. The model takes
-- them as they are.
use hemera.Base.{
  ℕ, ◌+◌, Bytes, Bool, ◌||◌, ◌&&◌, ◌==◌, leb, Option, some, none, if◌then◌else◌, [], ◌∷◌, map,
  contains,
}
use mathlib.Core.List.{reverse}

pub record Text : Type 0 where
  pub to_lower : Bytes → Bytes
  pub trim_space : Bytes → Bytes
  -- regexp.Compile: none for a syntax error, or else MatchString of the compiled expression
  pub compile : Bytes → Option (Bytes → Bool)

abbrev pub lower : ℕ → ℕ
lower c = if leb b'A' c && leb c b'Z' then c + 32 else c

abbrev pub is_space : ℕ → Bool
is_space c = c == 32 || (leb 9 c && leb c 13)

abbrev pub skip_spaces : Bytes → Bytes
skip_spaces [] = []
skip_spaces (c ∷ s) = if is_space c then skip_spaces s else c ∷ s

-- A concrete version for tests: ASCII text, and expressions that are one literal, of which the empty
-- one is refused.
abbrev pub literal : Bytes → Option (Bytes → Bool)
literal [] = none
literal (c ∷ e) = some (λ s. contains s (c ∷ e))

abbrev pub ascii : Text
ascii = record {
  to_lower = map lower;
  trim_space = λ s. reverse (skip_spaces (reverse (skip_spaces s)));
  compile = literal;
}
