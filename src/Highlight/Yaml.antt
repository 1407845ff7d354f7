-- ===== src/Highlight/Yaml.antt =====
-- website/lib/highlight.ts: `tokenizeYaml`.
use kube_cell.Common.{
  ℕ, suc, Bool, ◌||◌, List, [], ◌∷◌, ◌++◌, Option, some, Text, units, is_space, starts_with, length,
  drop, if◌then◌else◌, ◌>>=◌,
}
use kube_cell.Highlight.Types.{TokenType, plain, key, string, number, keyword, punct, Token, token}
use kube_cell.Highlight.Patterns.{spaces, delimited, whole_word, digits, literal_word, push_plain}
use kube_cell.Regex.{
  Regex, unit, seq, alt, boundary, at_start, group, char, opt, plus, one_of, is_digit, is_letter,
  first_match, test, exec_loop,
}

-- `[A-Za-z0-9_.\-/]`
abbrev is_key_unit : ℕ → Bool
is_key_unit c = is_letter c || is_digit c || one_of (units "_.-/") c

-- `[A-Za-z0-9_.\-/]+`
abbrev pub key_name : Regex
key_name = plus (unit is_key_unit)

-- `/^(\s*)([A-Za-z0-9_.\-/]+)(:)(\s*)/`
abbrev pub yaml_key : Regex
yaml_key =
    seq at_start
      (seq (group spaces) (seq (group key_name) (seq (group (char b':')) (group spaces))))

-- `/^(\s*)(-)(\s+)/`
abbrev pub yaml_item : Regex
yaml_item =
    seq at_start (seq (group spaces) (seq (group (char b'-')) (group (plus (unit is_space)))))

-- `\b\d+(?:\.\d+)?(?:[A-Za-z]+)?\b`
abbrev pub quantity : Regex
quantity =
    seq boundary
      (seq digits (seq (opt (seq (char b'.') digits)) (seq (opt (plus (unit is_letter))) boundary)))

-- `/("[^"]*"|'[^']*'|\{[^}]*\}|\[[^\]]*\]|\btrue\b|\bfalse\b|\bnull\b|\b\d+(?:\.\d+)?(?:[A-Za-z]+)?\b)/g`
abbrev pub yaml_pattern : Regex
yaml_pattern = alt (delimited b'"' b'"') (
    alt (delimited b'\'' b'\'') (
      alt (delimited b'{' b'}') (
        alt (delimited b'[' b']')
          (alt (whole_word "true") (alt (whole_word "false") (alt (whole_word "null") quantity))))))

-- `/^["'{[ ]/`
abbrev pub yaml_quoted : Regex
yaml_quoted = seq at_start (unit (one_of (units "\"'{[ ")))

unfoldable pub yaml_type : Text → TokenType
unfolding test
yaml_type value =
    if test yaml_quoted value || starts_with value (units "{") || starts_with value (units "[")
    then string
    else if test literal_word value
    then keyword
    else number

-- The body of the loop over the values of the line.
unfoldable pub yaml_value : Text → Text → List Token → Option (List Token)
unfolding yaml_type
yaml_value gap value tokens = some (push_plain gap tokens ++ token value (yaml_type value) ∷ [])

-- The tokens of the key of a line, or of the dash of a list item, and what is left of the line.
unfoldable pub yaml_item_head : Text → Option (Text × List Text) → List Token × Text
yaml_item_head code (some (whole, indent ∷ dash ∷ space ∷ [])) =
    (push_plain indent [] ++ token dash punct ∷ token space plain ∷ [], drop (length whole) code)
yaml_item_head code _ = ([], code)

unfoldable pub yaml_head : Text → Option (Text × List Text) → List Token × Text
unfolding first_match yaml_item_head
yaml_head code (some (whole, indent ∷ key_text ∷ colon ∷ space ∷ [])) = (
  push_plain space (push_plain indent [] ++ token key_text key ∷ token colon punct ∷ []),
  drop (length whole) code,
)
yaml_head code _ = yaml_item_head code (first_match yaml_item code)

unfoldable pub yaml_values : List Token × Text → Option (List Token)
unfolding exec_loop yaml_value
yaml_values (tokens, rest) = do
  (out, last) ←
      exec_loop yaml_pattern yaml_value (suc (length rest))
        (record { seen = []; rest = rest; groups = [] }) tokens
  some (push_plain last.rest out)

unfoldable pub tokenize_yaml : Text → Option (List Token)
unfolding first_match yaml_head yaml_values
tokenize_yaml code = yaml_values (yaml_head code (first_match yaml_key code))
