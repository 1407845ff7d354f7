-- ===== src/Components/JsonLd/Safety.antt =====
-- What `JSON.stringify` leaves of the characters of its data: it writes no `<` of its own.
use kube_cell.Common.{
  ℕ, zero, suc, ◌+◌, Bool, true, false, ◌||◌, ◌&&◌, [], ◌∷◌, ◌++◌, Text, decimal_from, ◌==◌, ◌≡◌,
  refl, ◌∙◌, map, arith, ◌%◌, ◌/◌,
}
use kube_cell.Components.JsonLd.{json_ld}
use kube_cell.Dom.Reading.{scripts}
use kube_cell.Json.{
  Json, json_string, json_number, json_negsuc, json_bool, json_array, json_object, Elements,
  no_element, add_element, Members, no_member, add_member, starts_low, is_high, hex_digit,
  unicode_escape, escape, unit_text, escape_all, quoted, bool_text, serialize, serialize_elements,
  serialize_members, stringify,
}

unfoldable pub has_less : Text → Bool
has_less [] = false
has_less (c ∷ s) = c == b'<' || has_less s

-- Whether a string of the data, a key or a value, has a `<`.
unfoldable mutual
  unfolding has_less

  pub json_has_less : Json → Bool
  json_has_less (json_string s) = has_less s
  json_has_less (json_number n) = false
  json_has_less (json_negsuc n) = false
  json_has_less (json_bool b) = false
  json_has_less (json_array es) = elements_have_less es
  json_has_less (json_object ms) = members_have_less ms

  elements_have_less : Elements → Bool
  elements_have_less no_element = false
  elements_have_less (add_element j es) = json_has_less j || elements_have_less es

  members_have_less : Members → Bool
  members_have_less no_member = false
  members_have_less (add_member key j ms) =
      (has_less key || json_has_less j) || members_have_less ms

pub has_less-append : (s t : Text) → has_less (s ++ t) ≡ (has_less s || has_less t)
unfolding has_less
has_less-append [] t = refl
has_less-append (c ∷ s) t = ground (arith, has_less-append s t)

hex_digit_not_less : (n : ℕ) → (hex_digit (n % 16) == b'<') ≡ false
unfolding hex_digit
hex_digit_not_less n = ground arith

less-unicode_escape : (c : ℕ) → has_less (unicode_escape c) ≡ false
unfolding has_less unicode_escape
less-unicode_escape c = ground (
  arith,
  hex_digit_not_less (c / 4096),
  hex_digit_not_less (c / 256),
  hex_digit_not_less (c / 16),
  hex_digit_not_less c,
)

less-escape : (c : ℕ) → has_less (escape c) ≡ (c == b'<')
unfolding has_less escape
less-escape c = ground (arith, less-unicode_escape c)

less-unit_text : (p b : Bool) (c : ℕ) → has_less (unit_text p b c) ≡ (c == b'<')
unfolding has_less unit_text
less-unit_text true b c = ground arith
less-unit_text false b c = ground (arith, less-unicode_escape c, less-escape c)

less-escape_all : (p : Bool) (s : Text) → has_less (escape_all p s) ≡ has_less s
unfolding has_less escape_all
less-escape_all p [] = refl
less-escape_all p (c ∷ s) =
    has_less-append (unit_text p (starts_low s) c) (escape_all (is_high c && starts_low s) s)
    ∙ cc (less-unit_text p (starts_low s) c, less-escape_all (is_high c && starts_low s) s)

less-quoted : (s : Text) → has_less (quoted s) ≡ has_less s
unfolding has_less quoted
less-quoted s =
    ground (arith, has_less-append (escape_all false s) (b'"' ∷ []), less-escape_all false s)

less-decimal_from : (fuel n : ℕ) → has_less (decimal_from fuel n) ≡ false
unfolding has_less
less-decimal_from zero n = refl
less-decimal_from (suc fuel) n = ground (
  arith,
  less-decimal_from fuel (n / 10),
  has_less-append (decimal_from fuel (n / 10)) ((b'0' + n % 10) ∷ []),
)

less-bool_text : (b : Bool) → has_less (bool_text b) ≡ false
unfolding has_less
less-bool_text true = refl
less-bool_text false = refl

or_three : (a b c : Bool) → (a || (b || (c || false))) ≡ ((a || b) || c)
or_three a b c = ground arith

or_two : (a b : Bool) → (a || (b || false)) ≡ (a || b)
or_two a b = ground arith

or_assoc : (a b c : Bool) → (a || (b || c)) ≡ ((a || b) || c)
or_assoc a b c = ground arith

mutual
  unfolding has_less json_has_less serialize

  json_lem : (j : Json) → has_less (serialize [] [] j) ≡ json_has_less j
  json_lem (json_string s) = less-quoted s
  json_lem (json_number n) = less-decimal_from (suc n) n
  json_lem (json_negsuc n) = ground (arith, less-decimal_from (suc (suc n)) (suc n))
  json_lem (json_bool b) = less-bool_text b
  json_lem (json_array no_element) = refl
  json_lem (json_array (add_element j es)) =
      simp (has_less-append, json_lem j, elements_lem es)
        (or_two (json_has_less j) (elements_have_less es))
  json_lem (json_object no_member) = refl
  json_lem (json_object (add_member key j ms)) =
      simp (has_less-append, less-quoted key, json_lem j, members_lem ms)
        (or_three (has_less key) (json_has_less j) (members_have_less ms))

  elements_lem : (es : Elements) → has_less (serialize_elements [] [] es) ≡ elements_have_less es
  elements_lem no_element = refl
  elements_lem (add_element j es) = simp (has_less-append, json_lem j, elements_lem es)

  members_lem : (ms : Members) → has_less (serialize_members [] [] ms) ≡ members_have_less ms
  members_lem no_member = refl
  members_lem (add_member key j ms) =
      simp (has_less-append, less-quoted key, json_lem j, members_lem ms)
        (or_assoc (has_less key) (json_has_less j) (members_have_less ms))

pub has_less-stringify : (j : Json) → has_less (stringify j) ≡ json_has_less j
unfolding stringify
has_less-stringify j = json_lem j

-- The script element of a datum has one script, and there is a `<` in it just if a key or a string
-- of the datum has one: nothing is escaped, and nothing else brings a `<` in.
pub json_ld-has_less : (j : Json) → map has_less (scripts (json_ld j)) ≡ json_has_less j ∷ []
unfolding scripts json_ld
json_ld-has_less j = rw (has_less-stringify j) refl
