-- ===== src/Highlight/Json.antt =====
-- website/lib/highlight.ts: `tokenizeJson`.
pub mod Strings
use kube_cell.Common.{
  suc, not, ◌||◌, List, [], ◌∷◌, ◌++◌, Option, some, Text, units, starts_with, length, ◌==◌,
  if◌then◌else◌, ◌>>=◌,
}
use kube_cell.Highlight.Types.{TokenType, key, string, number, keyword, punct, Token, token}
use kube_cell.Highlight.Patterns.{spaces, whole_word, digits, literal_word, push_plain}
use kube_cell.Regex.{
  Regex, unit, seq, alt, star, boundary, at_start, ahead, char, opt, one_of, is_digit, is_newline,
  test, exec_loop,
}

-- `(?:[^"\\]|\\.)*`
abbrev pub string_body : Regex
string_body = star (
    alt (unit (λ c. not (c == b'"' || c == b'\\')))
      (seq (char b'\\') (unit (λ c. not (is_newline c)))))

-- `"(?:[^"\\]|\\.)*"`
abbrev pub string_literal : Regex
string_literal = seq (char b'"') (seq string_body (char b'"'))

-- `"(?:[^"\\]|\\.)*"(?=\s*:)`
abbrev pub string_key : Regex
string_key = seq (char b'"') (seq string_body (seq (char b'"') (ahead (seq spaces (char b':')))))

-- `-?\b\d+(?:\.\d+)?\b`
abbrev json_number : Regex
json_number =
    seq (opt (char b'-')) (seq boundary (seq digits (seq (opt (seq (char b'.') digits)) boundary)))

-- `/("(?:[^"\\]|\\.)*"(?=\s*:)|"(?:[^"\\]|\\.)*"|\btrue\b|\bfalse\b|\bnull\b|-?\b\d+(?:\.\d+)?\b|[{}[\],:])/g`
abbrev pub json_pattern : Regex
json_pattern = alt string_key (
    alt string_literal (
      alt (whole_word "true") (
        alt (whole_word "false")
          (alt (whole_word "null") (alt json_number (unit (one_of (units "{}[],:"))))))))

-- `/^-?\d/`
abbrev begins_number : Regex
begins_number = seq at_start (seq (opt (char b'-')) (unit is_digit))

unfoldable pub json_type : Text → TokenType
unfolding test
json_type value =
    if starts_with value (units "\"")
    then if test string_key value then key else string
    else if test literal_word value
    then keyword
    else if test begins_number value
    then number
    else punct

-- The body of the loop.
unfoldable pub json_step : Text → Text → List Token → Option (List Token)
unfolding json_type
json_step gap value tokens = some (push_plain gap tokens ++ token value (json_type value) ∷ [])

unfoldable pub tokenize_json : Text → Option (List Token)
unfolding exec_loop json_step
tokenize_json code = do
  (out, last) ←
      exec_loop json_pattern json_step (suc (length code))
        (record { seen = []; rest = code; groups = [] }) []
  some (push_plain last.rest out)
