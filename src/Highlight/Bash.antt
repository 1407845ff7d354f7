-- ===== src/Highlight/Bash.antt =====
-- website/lib/highlight.ts: `tokenizeBash`.
pub mod Drops
pub mod Gap
use kube_cell.Common.{
  suc, Bool, true, false, not, ◌&&◌, ◌||◌, List, [], ◌∷◌, ◌++◌, Option, none, some, Text, units,
  starts_with, length, is_empty, ◌==◌, if◌then◌else◌, ◌>>=◌, trim, trim_end,
}
use kube_cell.Highlight.Types.{TokenType, plain, string, number, flag, command, punct, Token, token}
use kube_cell.Highlight.Patterns.{spaces, delimited, digits, push_plain}
use kube_cell.Regex.{
  Regex, unit, seq, alt, star, boundary, at_start, at_end, char, word, opt, one_of, is_digit,
  is_letter, is_word_unit, first_match, test, exec_loop,
}

-- `\$[A-Za-z_][A-Za-z0-9_]*`
abbrev variable : Regex
variable = seq (char b'$') (seq (unit (λ c. is_letter c || c == b'_')) (star (unit is_word_unit)))

-- `--?[A-Za-z][A-Za-z0-9-]*`
abbrev option_flag : Regex
option_flag = seq (char b'-') (
    seq (opt (char b'-'))
      (seq (unit is_letter) (star (unit (λ c. is_letter c || is_digit c || c == b'-')))))

-- `/("[^"]*"|'[^']*'|\$\{[^}]*\}|\$[A-Za-z_][A-Za-z0-9_]*|--?[A-Za-z][A-Za-z0-9-]*|\|\||&&|\||>|<|\b\d+\b)/g`
abbrev pub bash_pattern : Regex
bash_pattern = alt (delimited b'"' b'"') (
    alt (delimited b'\'' b'\'') (
      alt (seq (char b'$') (delimited b'{' b'}')) (
        alt variable (
          alt option_flag (
            alt (word (units "||")) (
              alt (word (units "&&")) (
                alt (char b'|')
                  (alt (char b'>') (alt (char b'<') (seq boundary (seq digits boundary)))))))))))

-- `/^["']/`, `/^(\|\||&&|\||>|<)$/` and `/^\d+$/`
abbrev bash_quoted : Regex
bash_quoted = seq at_start (unit (one_of (units "\"'")))

abbrev bash_operator : Regex
bash_operator = seq at_start (
    seq
      (alt (word (units "||"))
        (alt (word (units "&&")) (alt (char b'|') (alt (char b'>') (char b'<')))))
      at_end)

abbrev only_digits : Regex
only_digits = seq at_start (seq digits at_end)

unfoldable pub bash_type : Text → TokenType
unfolding test
bash_type value =
    if test bash_quoted value
    then string
    else if starts_with value (units "$")
    then string
    else if starts_with value (units "-")
    then flag
    else if test bash_operator value
    then punct
    else if test only_digits value
    then number
    else plain

-- The local variables `tokens` and `first`.
pub record BashState : Type 0 where
  pub tokens : List Token
  pub first : Bool

-- `text.match(/^\s*/)?.[0] ?? ""`
abbrev matched_text : Option (Text × List Text) → Text
matched_text none = []
matched_text (some (whole, _)) = whole

unfoldable pub leading_spaces : Text → Text
unfolding first_match
leading_spaces s = matched_text (first_match (seq at_start spaces) s)

-- `pushPlain`
unfoldable pub bash_push_plain : Text → BashState → BashState
unfolding trim trim_end leading_spaces
bash_push_plain [] st = st
bash_push_plain (c ∷ s) st =
    if st.first && not (is_empty (trim (c ∷ s)))
    then record {
      tokens =
          push_plain (leading_spaces (c ∷ s)) st.tokens ++ token (trim_end (c ∷ s)) command ∷ [];
      first = false;
    }
    else record st { tokens = st.tokens ++ token (c ∷ s) plain ∷ [] }

-- The body of the loop.
unfoldable pub bash_step : Text → Text → BashState → Option BashState
unfolding bash_push_plain bash_type
bash_step gap value st = some (record {
  tokens = (bash_push_plain gap st).tokens ++ token value (bash_type value) ∷ [];
  first = false;
})

unfoldable pub tokenize_bash : Text → Option (List Token)
unfolding exec_loop bash_step bash_push_plain
tokenize_bash code = do
  (out, last) ←
      exec_loop bash_pattern bash_step (suc (length code))
        (record { seen = []; rest = code; groups = [] }) (record { tokens = []; first = true })
  some (bash_push_plain last.rest out).tokens
