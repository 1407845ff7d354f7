-- ===== src/Highlight/Patterns.antt =====
-- website/lib/highlight.ts: what the patterns and the loops of the tokenizers share.
use kube_cell.Common.{ℕ, not, List, [], ◌∷◌, ◌++◌, Text, String, units, is_space, ◌==◌}
use kube_cell.Highlight.Types.{plain, Token, token}
use kube_cell.Regex.{
  Regex, unit, seq, alt, star, boundary, at_start, at_end, char, word, plus, is_digit,
}

-- `\s*`
abbrev pub spaces : Regex
spaces = star (unit is_space)

-- Text between two delimiters, as in `"[^"]*"`.
abbrev pub delimited : ℕ → ℕ → Regex
delimited from to = seq (char from) (seq (star (unit (λ c. not (c == to)))) (char to))

-- `\btrue\b`
abbrev pub whole_word : String → Regex
whole_word s = seq boundary (seq (word (units s)) boundary)

-- `\d+`
abbrev pub digits : Regex
digits = plus (unit is_digit)

-- `/^(true|false|null)$/`
abbrev pub literal_word : Regex
literal_word =
    seq at_start
      (seq (alt (word (units "true")) (alt (word (units "false")) (word (units "null")))) at_end)

-- `if (text) tokens.push({ text, type: "plain" })`
abbrev pub push_plain : Text → List Token → List Token
push_plain [] tokens = tokens
push_plain (c ∷ s) tokens = tokens ++ token (c ∷ s) plain ∷ []
