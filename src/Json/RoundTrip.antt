-- ===== src/Json/RoundTrip.antt =====
-- What `JSON.stringify` writes reads back.
use kube_cell.Common.{
  ℕ, zero, suc, ◌*◌, ◌≤◌, true, [], ◌∷◌, ◌++◌, some, Text, length, length-append, units, ◌≡◌, refl,
  sym, ◌∙◌, ap, arith, append_assoc, append-nil,
}
use kube_cell.Json.{
  Json, json_string, json_number, json_negsuc, json_bool, json_array, json_object, Elements,
  no_element, add_element, Members, no_member, add_member, break_line, colon, quoted, serialize,
  serialize_elements, serialize_members, stringify, stringify_pretty,
}
use kube_cell.Json.Reader.{skip, read, read_key, read_elements, read_members, parse}
use kube_cell.Json.Reader.Numbers.{ends_number, read-number, read-negative}
use kube_cell.Json.Reader.Fuel.{size, size_elements, size_members, size_pos, size-serialize}
use kube_cell.Json.Reader.Items.{
  Blank, Blank-append, skip-break_line, read-skip, read_key-skip, behind_colon, skip-behind_colon,
  read_key-quoted, read-empty_array, read-array, read_elements-add, read_elements-end,
  skip-close_array, skip-close_object, read-empty_object, read-object, read_members-add,
  read_members-end, read-string, read-bool,
}

ends-elements :
    (gap indent outer : Text) (es : Elements) (rest : Text)
    → ends_number (serialize_elements gap indent es ++ (break_line gap outer ++ b']' ∷ rest)) ≡ true
unfolding ends_number serialize
ends-elements [] indent outer no_element rest = refl
ends-elements (c ∷ gap) indent outer no_element rest = refl
ends-elements gap indent outer (add_element j es) rest = refl

ends-members :
    (gap indent outer : Text) (ms : Members) (rest : Text)
    → ends_number (serialize_members gap indent ms ++ (break_line gap outer ++ b'}' ∷ rest)) ≡ true
unfolding ends_number serialize
ends-members [] indent outer no_member rest = refl
ends-members (c ∷ gap) indent outer no_member rest = refl
ends-members gap indent outer (add_member key j ms) rest = refl

-- How the parts of a printed array and object and what follows are grouped.
group_two : (a b c s : Text) → (a ++ (b ++ c)) ++ s ≡ a ++ (b ++ (c ++ s))
group_two a b c s = simp (append_assoc)

group_four :
    (a b c d e s : Text) → (a ++ (b ++ (c ++ (d ++ e)))) ++ s ≡ a ++ (b ++ (c ++ (d ++ (e ++ s))))
group_four a b c d e s = simp (append_assoc)

group_six :
    (a b c d e f k s : Text)
    → (a ++ (b ++ (c ++ (d ++ (e ++ (f ++ k)))))) ++ s
      ≡ a ++ (b ++ (c ++ (d ++ (e ++ (f ++ (k ++ s))))))
group_six a b c d e f k s = simp (append_assoc)

read_key-printed :
    (gap indent key s : Text)
    → Blank indent
    → read_key (break_line gap indent ++ (quoted key ++ (colon gap ++ s)))
      ≡ some (key, behind_colon gap s)
read_key-printed gap indent key s i =
    read_key-skip _ (quoted key ++ (colon gap ++ s)) (skip-break_line gap indent _ i)
    ∙ read_key-quoted gap key s

mutual
  unfolding serialize size

  read-serialize :
      (gap indent : Text) (j : Json) (fuel : ℕ) (rest : Text)
      → Blank gap
      → Blank indent
      → size j ≤ fuel
      → ends_number rest ≡ true
      → read fuel (serialize gap indent j ++ rest) ≡ some (j, rest)
  read-serialize gap indent j zero rest g i h e = absurd (omega (arith, size_pos j))
  read-serialize gap indent (json_string s) (suc fuel) rest g i h e = read-string fuel s rest
  read-serialize gap indent (json_number n) (suc fuel) rest g i h e = read-number fuel n rest e
  read-serialize gap indent (json_negsuc n) (suc fuel) rest g i h e = read-negative fuel n rest e
  read-serialize gap indent (json_bool b) (suc fuel) rest g i h e = read-bool fuel b rest
  read-serialize gap indent (json_array no_element) (suc fuel) rest g i h e =
      read-empty_array fuel rest
  read-serialize gap indent (json_array (add_element j es)) (suc fuel) rest g i h e =
      let inner = indent ++ gap in
      let after = serialize_elements gap inner es ++ (break_line gap indent ++ b']' ∷ rest) in
      let blank = Blank-append indent gap i g in
      ap (λ (s : Text). read (suc fuel) (b'[' ∷ s))
        (group_four (break_line gap inner) (serialize gap inner j) (serialize_elements gap inner es)
          (break_line gap indent) (b']' ∷ []) rest)
      ∙ read-array fuel _ after rest j es
          (read-skip fuel _ (serialize gap inner j ++ after) (skip-break_line gap inner _ blank)
            ∙ read-serialize gap inner j fuel after g blank (omega arith)
                (ends-elements gap inner indent es rest))
          (read_elements-serialize gap inner indent es fuel rest g blank i (omega arith))
  read-serialize gap indent (json_object no_member) (suc fuel) rest g i h e =
      read-empty_object fuel rest
  read-serialize gap indent (json_object (add_member key j ms)) (suc fuel) rest g i h e =
      let inner = indent ++ gap in
      let after = serialize_members gap inner ms ++ (break_line gap indent ++ b'}' ∷ rest) in
      let blank = Blank-append indent gap i g in
      ap (λ (s : Text). read (suc fuel) (b'{' ∷ s))
        (group_six (break_line gap inner) (quoted key) (colon gap) (serialize gap inner j)
          (serialize_members gap inner ms) (break_line gap indent) (b'}' ∷ []) rest)
      ∙ read-object fuel _ key _ after rest j ms
          (read_key-printed gap inner key (serialize gap inner j ++ after) blank)
          (read-skip fuel _ (serialize gap inner j ++ after) (skip-behind_colon gap _)
            ∙ read-serialize gap inner j fuel after g blank (omega arith)
                (ends-members gap inner indent ms rest))
          (read_members-serialize gap inner indent ms fuel rest g blank i (omega arith))

  read_elements-serialize :
      (gap indent outer : Text) (es : Elements) (fuel : ℕ) (rest : Text)
      → Blank gap
      → Blank indent
      → Blank outer
      → size_elements es ≤ fuel
      → read_elements fuel
          (serialize_elements gap indent es ++ (break_line gap outer ++ b']' ∷ rest))
        ≡ some (es, rest)
  read_elements-serialize gap indent outer no_element zero rest g i o h = absurd (omega arith)
  read_elements-serialize gap indent outer (add_element j es) zero rest g i o h =
      absurd (omega arith)
  read_elements-serialize gap indent outer no_element (suc fuel) rest g i o h =
      read_elements-end fuel _ rest (skip-close_array gap outer rest o)
  read_elements-serialize gap indent outer (add_element j es) (suc fuel) rest g i o h =
      let after = serialize_elements gap indent es ++ (break_line gap outer ++ b']' ∷ rest) in
      ap (λ (s : Text). read_elements (suc fuel) (b',' ∷ s))
        (group_two (break_line gap indent) (serialize gap indent j)
          (serialize_elements gap indent es) (break_line gap outer ++ b']' ∷ rest))
      ∙ read_elements-add fuel _ after rest j es
          (read-skip fuel _ (serialize gap indent j ++ after) (skip-break_line gap indent _ i)
            ∙ read-serialize gap indent j fuel after g i (omega arith)
                (ends-elements gap indent outer es rest))
          (read_elements-serialize gap indent outer es fuel rest g i o (omega arith))

  read_members-serialize :
      (gap indent outer : Text) (ms : Members) (fuel : ℕ) (rest : Text)
      → Blank gap
      → Blank indent
      → Blank outer
      → size_members ms ≤ fuel
      → read_members fuel (serialize_members gap indent ms ++ (break_line gap outer ++ b'}' ∷ rest))
        ≡ some (ms, rest)
  read_members-serialize gap indent outer no_member zero rest g i o h = absurd (omega arith)
  read_members-serialize gap indent outer (add_member key j ms) zero rest g i o h =
      absurd (omega arith)
  read_members-serialize gap indent outer no_member (suc fuel) rest g i o h =
      read_members-end fuel _ rest (skip-close_object gap outer rest o)
  read_members-serialize gap indent outer (add_member key j ms) (suc fuel) rest g i o h =
      let after = serialize_members gap indent ms ++ (break_line gap outer ++ b'}' ∷ rest) in
      ap (λ (s : Text). read_members (suc fuel) (b',' ∷ s))
        (group_four (break_line gap indent) (quoted key) (colon gap) (serialize gap indent j)
          (serialize_members gap indent ms) (break_line gap outer ++ b'}' ∷ rest))
      ∙ read_members-add fuel _ key _ after rest j ms
          (read_key-printed gap indent key (serialize gap indent j ++ after) i)
          (read-skip fuel _ (serialize gap indent j ++ after) (skip-behind_colon gap _)
            ∙ read-serialize gap indent j fuel after g i (omega arith)
                (ends-members gap indent outer ms rest))
          (read_members-serialize gap indent outer ms fuel rest g i o (omega arith))

skip-Blank : (s : Text) → Blank s → skip s ≡ []
unfolding skip
skip-Blank [] h = refl
skip-Blank (c ∷ s) h = ground (arith, skip-Blank s)

ends-Blank : (s : Text) → Blank s → ends_number s ≡ true
unfolding ends_number
ends-Blank [] h = refl
ends-Blank (c ∷ s) h = ground arith

parse-read :
    (s rest : Text) (j : Json)
    → read (2 * length s) s ≡ some (j, rest)
    → skip rest ≡ []
    → parse s ≡ some j
unfolding parse
parse-read s rest j e b = rw (e, parse) (rw b refl)

-- A printed value with white space behind it.
pub parse-serialize :
    (gap : Text) (j : Json) (rest : Text)
    → Blank gap
    → Blank rest
    → parse (serialize gap [] j ++ rest) ≡ some j
parse-serialize gap j rest g b =
    let printed = serialize gap [] j in
    parse-read (printed ++ rest) rest j
      (read-serialize gap [] j (2 * length (printed ++ rest)) rest g refl
        (omega (arith, size-serialize gap [] j, length-append printed rest)) (ends-Blank rest b))
      (skip-Blank rest b)

-- The text that `JSON.stringify` gives for a datum, without a third argument and with indentation
-- by two spaces, is JSON that reads back as the datum.
pub parse-stringify :
    (j : Json) → (parse (stringify j) ≡ some j) × (parse (stringify_pretty j) ≡ some j)
unfolding stringify stringify_pretty
parse-stringify j = (
  ap parse (sym (append-nil (serialize [] [] j))) ∙ parse-serialize [] j [] refl refl,
  ap parse (sym (append-nil (serialize (units "  ") [] j)))
      ∙ parse-serialize (units "  ") j [] refl refl,
)
