-- ===== src/Json/Reader/Fuel.antt =====
-- The fuel that reading a printed value takes: twice the length of the text is enough.
use kube_cell.Common.{
  ℕ, suc, ◌+◌, ◌*◌, ◌≤◌, ◌/◌, ◌%◌, Bool, true, false, [], ◌∷◌, ◌++◌, Text, length, length-append,
  arith, decimal_from,
}
use kube_cell.Json.{
  Json, json_string, json_number, json_negsuc, json_bool, json_array, json_object, Elements,
  no_element, add_element, Members, no_member, add_member, break_line, colon, bool_text, quoted,
  serialize, serialize_elements, serialize_members,
}

-- The fuel that reading a value back takes.
unfoldable mutual
  pub size : Json → ℕ
  size (json_array es) = suc (size_elements es)
  size (json_object ms) = suc (size_members ms)
  size (json_string s) = 1
  size (json_number n) = 1
  size (json_negsuc n) = 1
  size (json_bool b) = 1

  pub size_elements : Elements → ℕ
  size_elements no_element = 1
  size_elements (add_element j es) = suc (size j + size_elements es)

  pub size_members : Members → ℕ
  size_members no_member = 1
  size_members (add_member key j ms) = suc (size j + size_members ms)

pub size_pos : (j : Json) → 1 ≤ size j
unfolding size
size_pos (json_array es) = omega arith
size_pos (json_object ms) = omega arith
size_pos _ = omega arith

decimal_from_pos : (fuel n : ℕ) → 1 ≤ length (decimal_from (suc fuel) n)
decimal_from_pos fuel n =
    ground (arith, length-append (decimal_from fuel (n / 10)) ((48 + n % 10) ∷ []))

quoted_pos : (s : Text) → 1 ≤ length (quoted s)
unfolding quoted
quoted_pos s = omega arith

bool_text_pos : (b : Bool) → 1 ≤ length (bool_text b)
bool_text_pos true = omega arith
bool_text_pos false = omega arith

length-two : (a b c : Text) → length b + length c ≤ length (a ++ (b ++ c))
length-two a b c = omega (arith, length-append a (b ++ c), length-append b c)

length-three : (a b c s : Text) → length b + length c + length s ≤ length (a ++ (b ++ (c ++ s)))
length-three a b c s = omega (arith, length-two a b (c ++ s), length-append c s)

length-last : (a b : Text) → length b ≤ length (a ++ b)
length-last a b = omega (arith, length-append a b)

mutual
  unfolding serialize size

  pub size-serialize : (gap indent : Text) (j : Json) → size j ≤ 2 * length (serialize gap indent j)
  size-serialize gap indent (json_string s) = omega (arith, quoted_pos s)
  size-serialize gap indent (json_number n) = omega (arith, decimal_from_pos n n)
  size-serialize gap indent (json_negsuc n) = omega arith
  size-serialize gap indent (json_bool b) = omega (arith, bool_text_pos b)
  size-serialize gap indent (json_array no_element) = omega arith
  size-serialize gap indent (json_array (add_element j es)) =
      let inner = indent ++ gap in
      omega (
        arith,
        size-serialize gap inner j,
        size_elements-serialize gap inner es,
        length-three (break_line gap inner) (serialize gap inner j)
            (serialize_elements gap inner es) (break_line gap indent ++ b']' ∷ []),
        length-last (break_line gap indent) (b']' ∷ []),
      )
  size-serialize gap indent (json_object no_member) = omega arith
  size-serialize gap indent (json_object (add_member key j ms)) =
      let inner = indent ++ gap in
      omega (
        arith,
        size-serialize gap inner j,
        size_members-serialize gap inner ms,
        length-last (break_line gap inner) (
            quoted key
            ++ (colon gap
                ++ (serialize gap inner j
                    ++ (serialize_members gap inner ms ++ (break_line gap indent ++ b'}' ∷ []))))),
        length-last (quoted key) (
            colon gap
            ++ (serialize gap inner j
                ++ (serialize_members gap inner ms ++ (break_line gap indent ++ b'}' ∷ [])))),
        length-three (colon gap) (serialize gap inner j) (serialize_members gap inner ms)
            (break_line gap indent ++ b'}' ∷ []),
        length-last (break_line gap indent) (b'}' ∷ []),
      )

  size_elements-serialize :
      (gap indent : Text) (es : Elements)
      → size_elements es ≤ suc (2 * length (serialize_elements gap indent es))
  size_elements-serialize gap indent no_element = omega arith
  size_elements-serialize gap indent (add_element j es) = omega (
    arith,
    size-serialize gap indent j,
    size_elements-serialize gap indent es,
    length-two (break_line gap indent) (serialize gap indent j) (serialize_elements gap indent es),
  )

  size_members-serialize :
      (gap indent : Text) (ms : Members)
      → size_members ms ≤ suc (2 * length (serialize_members gap indent ms))
  size_members-serialize gap indent no_member = omega arith
  size_members-serialize gap indent (add_member key j ms) = omega (
    arith,
    size-serialize gap indent j,
    size_members-serialize gap indent ms,
    length-last (break_line gap indent)
        (quoted key ++ (colon gap ++ (serialize gap indent j ++ serialize_members gap indent ms))),
    length-last (quoted key)
        (colon gap ++ (serialize gap indent j ++ serialize_members gap indent ms)),
    length-two (colon gap) (serialize gap indent j) (serialize_members gap indent ms),
  )
