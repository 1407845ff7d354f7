-- ===== src/Json/Reader/Items.antt =====
-- The readers on the parts of a printed array or object.
use kube_cell.Common.{
  ℕ, zero, suc, Bool, true, false, [], ◌∷◌, ◌++◌, some, Text, all, ◌≡◌, refl, arith, append_assoc,
}
use kube_cell.Json.{
  Json, json_string, json_bool, json_array, json_object, Elements, no_element, add_element, Members,
  no_member, add_member, break_line, colon, bool_text, quoted,
}
use kube_cell.Json.Reader.{is_blank, skip, expect, read, read_key, read_elements, read_members}
use kube_cell.Json.Reader.Strings.{read-quoted}

abbrev pub Blank : Text → Type 0
Blank s = all is_blank s ≡ true

pub Blank-append : (s t : Text) → Blank s → Blank t → Blank (s ++ t)
Blank-append [] t h k = k
Blank-append (c ∷ s) t h k = ground (arith, Blank-append s t)

pub skip-append : (s t : Text) → Blank s → skip (s ++ t) ≡ skip t
unfolding skip
skip-append [] t h = refl
skip-append (c ∷ s) t h = ground (arith, skip-append s t)

pub skip-break_line :
    (gap indent s : Text) → Blank indent → skip (break_line gap indent ++ s) ≡ skip s
unfolding skip
skip-break_line [] indent s h = refl
skip-break_line (c ∷ gap) indent s h = skip-append indent s h

-- The readers see a text behind its white space.
pub read-skip : (fuel : ℕ) (s t : Text) → skip s ≡ skip t → read fuel s ≡ read fuel t
unfolding read
read-skip zero s t e = refl
read-skip (suc fuel) s t e = rw (e, read) refl

pub read_key-skip : (s t : Text) → skip s ≡ skip t → read_key s ≡ read_key t
unfolding read_key
read_key-skip s t e = rw (e, read_key) refl

-- What stands behind the colon.
abbrev pub behind_colon : Text → Text → Text
behind_colon [] s = s
behind_colon (c ∷ gap) s = b' ' ∷ s

pub skip-behind_colon : (gap s : Text) → skip (behind_colon gap s) ≡ skip s
unfolding skip
skip-behind_colon [] s = refl
skip-behind_colon (c ∷ gap) s = refl

pub read_key-quoted :
    (gap key s : Text) → read_key (quoted key ++ (colon gap ++ s)) ≡ some (key, behind_colon gap s)
unfolding read_key quoted skip expect
read_key-quoted [] key s = simp (append_assoc, read-quoted key (b':' ∷ s))
read_key-quoted (c ∷ gap) key s = simp (append_assoc, read-quoted key (b':' ∷ b' ' ∷ s))

pub read-empty_array :
    (fuel : ℕ) (rest : Text)
    → read (suc fuel) (b'[' ∷ b']' ∷ rest) ≡ some (json_array no_element, rest)
unfolding read
read-empty_array zero rest = refl
read-empty_array (suc fuel) rest = refl

pub read-array :
    (fuel : ℕ) (s later rest : Text) (j : Json) (es : Elements)
    → read fuel s ≡ some (j, later)
    → read_elements fuel later ≡ some (es, rest)
    → read (suc fuel) (b'[' ∷ s) ≡ some (json_array (add_element j es), rest)
unfolding read
read-array fuel s later rest j es e k = rw (e, k, read) refl

pub read_elements-add :
    (fuel : ℕ) (s later rest : Text) (j : Json) (es : Elements)
    → read fuel s ≡ some (j, later)
    → read_elements fuel later ≡ some (es, rest)
    → read_elements (suc fuel) (b',' ∷ s) ≡ some (add_element j es, rest)
unfolding read
read_elements-add fuel s later rest j es e k = rw (e, k, read_elements) refl

pub read_elements-end :
    (fuel : ℕ) (s rest : Text)
    → skip s ≡ b']' ∷ rest
    → read_elements (suc fuel) s ≡ some (no_element, rest)
unfolding read
read_elements-end fuel s rest e = rw (e, read_elements) (rw e refl)

pub skip-close_array :
    (gap indent rest : Text)
    → Blank indent
    → skip (break_line gap indent ++ b']' ∷ rest) ≡ b']' ∷ rest
unfolding skip
skip-close_array gap indent rest i = skip-break_line gap indent (b']' ∷ rest) i

pub skip-close_object :
    (gap indent rest : Text)
    → Blank indent
    → skip (break_line gap indent ++ b'}' ∷ rest) ≡ b'}' ∷ rest
unfolding skip
skip-close_object gap indent rest i = skip-break_line gap indent (b'}' ∷ rest) i

pub read-empty_object :
    (fuel : ℕ) (rest : Text)
    → read (suc fuel) (b'{' ∷ b'}' ∷ rest) ≡ some (json_object no_member, rest)
unfolding read
read-empty_object fuel rest = refl

pub read-object :
    (fuel : ℕ) (s key value later rest : Text) (j : Json) (ms : Members)
    → read_key s ≡ some (key, value)
    → read fuel value ≡ some (j, later)
    → read_members fuel later ≡ some (ms, rest)
    → read (suc fuel) (b'{' ∷ s) ≡ some (json_object (add_member key j ms), rest)
unfolding read
read-object fuel s key value later rest j ms e k l = rw (e, k, l, read) refl

pub read_members-add :
    (fuel : ℕ) (s key value later rest : Text) (j : Json) (ms : Members)
    → read_key s ≡ some (key, value)
    → read fuel value ≡ some (j, later)
    → read_members fuel later ≡ some (ms, rest)
    → read_members (suc fuel) (b',' ∷ s) ≡ some (add_member key j ms, rest)
unfolding read
read_members-add fuel s key value later rest j ms e k l = rw (e, k, l, read_members) refl

pub read_members-end :
    (fuel : ℕ) (s rest : Text)
    → skip s ≡ b'}' ∷ rest
    → read_members (suc fuel) s ≡ some (no_member, rest)
unfolding read
read_members-end fuel s rest e = rw (e, read_members) (rw e refl)

pub read-string :
    (fuel : ℕ) (s rest : Text) → read (suc fuel) (quoted s ++ rest) ≡ some (json_string s, rest)
unfolding read quoted
read-string fuel s rest = simp (append_assoc, read-quoted s rest)

pub read-bool :
    (fuel : ℕ) (b : Bool) (rest : Text)
    → read (suc fuel) (bool_text b ++ rest) ≡ some (json_bool b, rest)
unfolding read
read-bool fuel true rest = refl
read-bool fuel false rest = refl
