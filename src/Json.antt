-- ===== src/Json.antt =====
-- What the site makes of JSON: the values of its data and `JSON.stringify`, as ECMAScript defines
-- it. Components/JsonLd writes values into pages, Seo writes one into a file. A number is written
-- with all its digits, as JavaScript does below 10^21, and the keys of an object keep their order,
-- as they do where they are distinct and no array indices: so it is in all data of the site.
pub mod Reader
pub mod RoundTrip
use kube_cell.Common.{
  ℕ, suc, Bool, true, false, ◌&&◌, List, [], ◌∷◌, ◌++◌, Text, units, text_eq, Option, none, some,
  if◌then◌else◌, ltb, leb, ◌==◌, ◌+◌, ◌/◌, ◌%◌, decimal,
}

mutual
  pub data Json : Type 0 where
    json_string : Text → Json
    -- a whole number; `json_negsuc n` is -(n + 1)
    json_number json_negsuc : ℕ → Json
    json_bool : Bool → Json
    json_array : Elements → Json
    json_object : Members → Json

  pub data Elements : Type 0 where
    no_element : Elements
    add_element : Json → Elements → Elements

  pub data Members : Type 0 where
    no_member : Members
    add_member : Text → Json → Members → Members

-- `[…]` and `{…}` in the source.
abbrev pub elements : List Json → Elements
elements [] = no_element
elements (j ∷ js) = add_element j (elements js)

abbrev pub members : List (Text × Json) → Members
members [] = no_member
members ((key, j) ∷ ms) = add_member key j (members ms)

abbrev pub is_high : ℕ → Bool
is_high c = leb 0xd800 c && ltb c 0xdc00

abbrev pub is_low : ℕ → Bool
is_low c = leb 0xdc00 c && ltb c 0xe000

abbrev pub starts_low : Text → Bool
starts_low [] = false
starts_low (c ∷ s) = is_low c

unfoldable pub hex_digit : ℕ → ℕ
hex_digit n = if ltb n 10 then b'0' + n else 87 + n

unfoldable pub unicode_escape : ℕ → Text
unicode_escape c =
    b'\\'
    ∷ b'u'
    ∷ hex_digit (c / 4096 % 16)
    ∷ hex_digit (c / 256 % 16)
    ∷ hex_digit (c / 16 % 16)
    ∷ hex_digit (c % 16)
    ∷ []

-- A unit that is no surrogate.
unfoldable pub escape : ℕ → Text
unfolding unicode_escape hex_digit
escape c =
    if c == b'"'
    then b'\\' ∷ b'"' ∷ []
    else if c == b'\\'
    then b'\\' ∷ b'\\' ∷ []
    else if c == 8
    then b'\\' ∷ b'b' ∷ []
    else if c == 9
    then b'\\' ∷ b't' ∷ []
    else if c == 10
    then b'\\' ∷ b'n' ∷ []
    else if c == 12
    then b'\\' ∷ b'f' ∷ []
    else if c == 13
    then b'\\' ∷ b'r' ∷ []
    else if ltb c 32
    then unicode_escape c
    else c ∷ []

-- A unit: `paired` says that it is the low half of a surrogate pair, `before_low` that a low half
-- follows it. A surrogate without its other half is escaped.
unfoldable pub unit_text : Bool → Bool → ℕ → Text
unfolding unicode_escape escape
unit_text true before_low c = c ∷ []
unit_text false before_low c =
    if is_high c
    then (if before_low then c ∷ [] else unicode_escape c)
    else if is_low c
    then unicode_escape c
    else escape c

unfoldable pub escape_all : Bool → Text → Text
unfolding unit_text
escape_all paired [] = []
escape_all paired (c ∷ s) =
    unit_text paired (starts_low s) c ++ escape_all (is_high c && starts_low s) s

unfoldable pub quoted : Text → Text
unfolding escape_all
quoted s = b'"' ∷ escape_all false s ++ b'"' ∷ []

-- The line break and the indentation before an item; nothing without a gap.
abbrev pub break_line : Text → Text → Text
break_line [] indent = []
break_line (c ∷ gap) indent = 10 ∷ indent

abbrev pub colon : Text → Text
colon [] = b':' ∷ []
colon (c ∷ gap) = b':' ∷ b' ' ∷ []

abbrev pub bool_text : Bool → Text
bool_text true = units "true"
bool_text false = units "false"

-- `JSON.stringify(value, null, gap)`, `indent` being the indentation so far.
unfoldable mutual
  unfolding quoted

  pub serialize : Text → Text → Json → Text
  serialize gap indent (json_string s) = quoted s
  serialize gap indent (json_number n) = decimal n
  serialize gap indent (json_negsuc n) = b'-' ∷ decimal (suc n)
  serialize gap indent (json_bool b) = bool_text b
  serialize gap indent (json_array no_element) = units "[]"
  serialize gap indent (json_array (add_element j es)) =
      b'['
      ∷ (break_line gap (indent ++ gap)
          ++ (serialize gap (indent ++ gap) j
              ++ (serialize_elements gap (indent ++ gap) es
                  ++ (break_line gap indent ++ b']' ∷ []))))
  serialize gap indent (json_object no_member) = units "{}"
  serialize gap indent (json_object (add_member key j ms)) =
      b'{'
      ∷ (break_line gap (indent ++ gap)
          ++ (quoted key
              ++ (colon gap
                  ++ (serialize gap (indent ++ gap) j
                      ++ (serialize_members gap (indent ++ gap) ms
                          ++ (break_line gap indent ++ b'}' ∷ []))))))

  -- The items after the first, each behind its comma.
  pub serialize_elements : Text → Text → Elements → Text
  serialize_elements gap indent no_element = []
  serialize_elements gap indent (add_element j es) =
      b',' ∷ (break_line gap indent ++ (serialize gap indent j ++ serialize_elements gap indent es))

  pub serialize_members : Text → Text → Members → Text
  serialize_members gap indent no_member = []
  serialize_members gap indent (add_member key j ms) =
      b','
      ∷ (break_line gap indent
          ++ (quoted key
              ++ (colon gap ++ (serialize gap indent j ++ serialize_members gap indent ms))))

-- `JSON.stringify(value)`
unfoldable pub stringify : Json → Text
unfolding serialize
stringify j = serialize [] [] j

-- `JSON.stringify(value, null, 2)`
unfoldable pub stringify_pretty : Json → Text
unfolding serialize
stringify_pretty j = serialize (units "  ") [] j

abbrev member_of : Text → Members → Option Json
member_of key no_member = none
member_of key (add_member name j ms) = if text_eq name key then some j else member_of key ms

-- A member of an object, as `?.` finds it.
abbrev pub member : Text → Option Json → Option Json
member key (some (json_object ms)) = member_of key ms
member key _ = none

abbrev pub string_in : Option Json → Option Text
string_in (some (json_string s)) = some s
string_in _ = none

abbrev text_in : Json → List Text
text_in (json_string s) = s ∷ []
text_in _ = []

-- The strings that stand behind a key in a value or anywhere within it, from first to last.
unfoldable mutual
  pub strings_at : Text → Json → List Text
  strings_at key (json_array es) = strings_at_elements key es
  strings_at key (json_object ms) = strings_at_members key ms
  strings_at key (json_string s) = []
  strings_at key (json_number n) = []
  strings_at key (json_negsuc n) = []
  strings_at key (json_bool b) = []

  strings_at_elements : Text → Elements → List Text
  strings_at_elements key no_element = []
  strings_at_elements key (add_element j es) = strings_at key j ++ strings_at_elements key es

  strings_at_members : Text → Members → List Text
  strings_at_members key no_member = []
  strings_at_members key (add_member name j ms) =
      (if text_eq name key then text_in j else []) ++ strings_at key j ++ strings_at_members key ms
