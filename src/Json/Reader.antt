-- ===== src/Json/Reader.antt =====
-- A description of JSON that is independent of `JSON.stringify`: a reader of the values whose
-- numbers are whole, with escapes and white space as ECMA-404 has them. It is more liberal in one
-- point, a number may have leading zeros.
pub mod Strings
pub mod Numbers
pub mod Items
pub mod Fuel
use kube_cell.Common.{
  ℕ, zero, suc, Bool, true, false, ◌&&◌, ◌||◌, List, [], ◌∷◌, Option, none, some, Text, units, leb,
  ltb, ◌==◌, ◌+◌, ◌*◌, ◌-◌, if◌then◌else◌, length, is_empty, starts_with, drop, ◌>>=◌,
}
use kube_cell.Json.{
  Json, json_string, json_number, json_negsuc, json_bool, json_array, json_object, Elements,
  no_element, add_element, Members, no_member, add_member,
}

abbrev pub is_blank : ℕ → Bool
is_blank c = c == b' ' || c == 10 || c == 13 || c == 9

unfoldable pub skip : Text → Text
skip [] = []
skip (c ∷ s) = let later = skip s in if is_blank c then later else c ∷ s

-- Inside a string: behind a plain unit, behind a backslash, or with hexadecimal digits to come
-- behind those of the given value.
pub data Mode : Type 0 where
  plain escaped : Mode
  hex : ℕ → ℕ → Mode

pub data Step : Type 0 where
  closed bad : Step
  go : Mode → Step
  emit : ℕ → Step

abbrev pub plain_step : ℕ → Step
plain_step c =
    if c == b'"'
    then closed
    else if c == b'\\'
    then go escaped
    else if ltb c 32
    then bad
    else emit c

abbrev pub escaped_step : ℕ → Step
escaped_step c =
    if c == b'u'
    then go (hex 3 0)
    else if c == b'"' || c == b'\\' || c == b'/'
    then emit c
    else if c == b'b'
    then emit 8
    else if c == b't'
    then emit 9
    else if c == b'n'
    then emit 10
    else if c == b'f'
    then emit 12
    else if c == b'r'
    then emit 13
    else bad

unfoldable pub hex_value : ℕ → Option ℕ
hex_value c =
    if leb b'0' c && leb c b'9'
    then some (c - b'0')
    else if leb b'a' c && leb c b'f'
    then some (c - 87)
    else if leb b'A' c && leb c b'F'
    then some (c - 55)
    else none

abbrev pub hex_next : ℕ → ℕ → Step
hex_next zero value = emit value
hex_next (suc more) value = go (hex more value)

abbrev pub hex_step : ℕ → ℕ → Option ℕ → Step
hex_step more value none = bad
hex_step more value (some digit) = hex_next more (value * 16 + digit)

abbrev pub step : Mode → ℕ → Step
step plain c = plain_step c
step escaped c = escaped_step c
step (hex more value) c = hex_step more value (hex_value c)

abbrev pub push : ℕ → Option (Text × Text) → Option (Text × Text)
push c none = none
push c (some (s, rest)) = some (c ∷ s, rest)

-- The rest of a string, and what follows its closing quote.
unfoldable pub read_units : Mode → Text → Option (Text × Text)
read_units mode [] = none
read_units mode (c ∷ s) = elim (step mode c) [
  | closed ↦ some ([], s)
  | bad ↦ none
  | go next ↦ read_units next s
  | emit unit ↦ push unit (read_units plain s)
]

abbrev pub is_digit : ℕ → Bool
is_digit c = leb b'0' c && leb c b'9'

-- The digits in front, behind those of the given value.
unfoldable pub read_digits : ℕ → Text → ℕ × Text
read_digits value [] = (value, [])
read_digits value (c ∷ s) =
    let later = read_digits (value * 10 + (c - b'0')) s in
    if is_digit c then later else (value, c ∷ s)

abbrev pub negated : ℕ × Text → Option (Json × Text)
negated (zero, rest) = some (json_number 0, rest)
negated (suc n, rest) = some (json_negsuc n, rest)

unfoldable pub read_negative : Text → Option (Json × Text)
unfolding read_digits
read_negative [] = none
read_negative (c ∷ s) =
    let read = negated (read_digits 0 (c ∷ s)) in if is_digit c then read else none

abbrev pub string_read : Option (Text × Text) → Option (Json × Text)
string_read none = none
string_read (some (s, rest)) = some (json_string s, rest)

abbrev pub number_read : ℕ × Text → Option (Json × Text)
number_read (n, rest) = some (json_number n, rest)

abbrev pub read_word : Text → Json → Text → Option (Json × Text)
read_word word j s = if starts_with s word then some (j, drop (length word) s) else none

-- What a value begins with.
pub data Kind : Type 0 where
  quote bracket brace minus digit letter other : Kind

unfoldable pub kind_of : ℕ → Kind
kind_of c =
    if c == b'"'
    then quote
    else if c == b'['
    then bracket
    else if c == b'{'
    then brace
    else if c == b'-'
    then minus
    else if is_digit c
    then digit
    else if c == b't' || c == b'f'
    then letter
    else other

-- `unit`, and the text behind it.
unfoldable pub expect : ℕ → Text → Option Text
expect unit [] = none
expect unit (c ∷ s) = if c == unit then some s else none

-- A member name and its colon, and the text behind them.
unfoldable pub read_key : Text → Option (Text × Text)
unfolding expect skip read_units
read_key s = do
  behind ← expect b'"' (skip s)
  (key, rest) ← read_units plain behind
  value ← expect b':' (skip rest)
  some (key, value)

unfoldable mutual
  unfolding skip read_units read_digits read_key expect kind_of read_negative

  -- A value behind white space.
  pub read : ℕ → Text → Option (Json × Text)
  read zero s = none
  read (suc fuel) s = elim (skip s) [
    | [] ↦ none
    | c ∷ later ↦ elim (kind_of c) [
      | quote ↦ string_read (read_units plain later)
      | bracket ↦ elim (read fuel later) [
        | some (j, rest) ↦ do
          (es, behind) ← read_elements fuel rest
          some (json_array (add_element j es), behind)
        | none ↦ do behind ← expect b']' (skip later); some (json_array no_element, behind)
      ]
      | brace ↦ elim (read_key later) [
        | some (key, value) ↦ do
          (j, rest) ← read fuel value
          (ms, behind) ← read_members fuel rest
          some (json_object (add_member key j ms), behind)
        | none ↦ do behind ← expect b'}' (skip later); some (json_object no_member, behind)
      ]
      | minus ↦ read_negative later
      | digit ↦ number_read (read_digits 0 (c ∷ later))
      | letter ↦
          if c == b't'
          then read_word (units "true") (json_bool true) (c ∷ later)
          else read_word (units "false") (json_bool false) (c ∷ later)
      | other ↦ none
    ]
  ]

  -- Each further item behind its comma, and the closing bracket.
  pub read_elements : ℕ → Text → Option (Elements × Text)
  read_elements zero s = none
  read_elements (suc fuel) s = elim (expect b',' (skip s)) [
    | some rest ↦ do
      (j, later) ← read fuel rest
      (es, behind) ← read_elements fuel later
      some (add_element j es, behind)
    | none ↦ do behind ← expect b']' (skip s); some (no_element, behind)
  ]

  pub read_members : ℕ → Text → Option (Members × Text)
  read_members zero s = none
  read_members (suc fuel) s = elim (expect b',' (skip s)) [
    | some rest ↦ do
      (key, value) ← read_key rest
      (j, later) ← read fuel value
      (ms, behind) ← read_members fuel later
      some (add_member key j ms, behind)
    | none ↦ do behind ← expect b'}' (skip s); some (no_member, behind)
  ]

-- The text holds one value and white space. Reading a value takes one unit of fuel for itself and
-- one for each item, which has at least its comma or bracket.
unfoldable pub parse : Text → Option Json
unfolding read skip
parse s = do (j, rest) ← read (2 * length s) s; if is_empty (skip rest) then some j else none
