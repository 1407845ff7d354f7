-- ===== src/Components/CodeBlock/Lines.antt =====
-- The lines of a code block: splitting at newlines and joining again.
use kube_cell.Common.{
  ℕ, Bool, true, false, List, [], ◌∷◌, ◌++◌, Text, ◌==◌, ◌≡◌, refl, ap, ◌∙◌, sym, arith, any,
  if◌then◌else◌, append-nil, is_empty, not, All, map,
}
use kube_cell.Components.CodeBlock.{split_lines, join_lines, add_first}

-- No line has a newline.
unfoldable pub OneLine : Text → Type 0
OneLine s = any (λ c. c == 10) s ≡ false

pub join_lines-add_first :
    (c : ℕ) (lines : List Text)
    → not (is_empty lines) ≡ true
    → join_lines (add_first c lines) ≡ c ∷ join_lines lines
unfolding join_lines
join_lines-add_first c [] h = ground arith
join_lines-add_first c (line ∷ []) h = refl
join_lines-add_first c (line ∷ next ∷ lines) h = refl

add_or_break-some :
    (b : Bool) (c : ℕ) (lines : List Text)
    → not (is_empty (if b then [] ∷ lines else add_first c lines)) ≡ true
add_or_break-some true c lines = refl
add_or_break-some false c [] = refl
add_or_break-some false c (line ∷ lines) = refl

pub split_lines-some : (s : Text) → not (is_empty (split_lines s)) ≡ true
unfolding split_lines
split_lines-some [] = refl
split_lines-some (c ∷ s) = add_or_break-some (c == 10) c (split_lines s)

join_lines-break :
    (lines : List Text)
    → not (is_empty lines) ≡ true
    → join_lines ([] ∷ lines) ≡ 10 ∷ join_lines lines
unfolding join_lines
join_lines-break [] h = ground arith
join_lines-break (line ∷ lines) h = refl

-- Joining the lines of a text gives the text.
pub join_lines-split_lines : (s : Text) → join_lines (split_lines s) ≡ s
unfolding join_lines split_lines
join_lines-split_lines [] = refl
join_lines-split_lines (c ∷ s) = ground (
  arith,
  join_lines-split_lines s,
  split_lines-some s,
  join_lines-add_first c (split_lines s),
  join_lines-break (split_lines s),
)

add_or_break-OneLine :
    (b : Bool) (c : ℕ) (lines : List Text)
    → (c == 10) ≡ b
    → All OneLine lines
    → All OneLine (if b then [] ∷ lines else add_first c lines)
unfolding OneLine
add_or_break-OneLine true c lines e h = (refl, h)
add_or_break-OneLine false c [] e h = (ground (arith, e), tt)
add_or_break-OneLine false c (line ∷ lines) e (h, hs) = (ground (arith, e, h), hs)

pub split_lines-OneLine : (s : Text) → All OneLine (split_lines s)
unfolding split_lines OneLine
split_lines-OneLine [] = (refl, tt)
split_lines-OneLine (c ∷ s) =
    add_or_break-OneLine (c == 10) c (split_lines s) refl (split_lines-OneLine s)

pub split_lines-append : (s t : Text) → OneLine s → split_lines (s ++ 10 ∷ t) ≡ s ∷ split_lines t
unfolding split_lines OneLine
split_lines-append [] t h = refl
split_lines-append (c ∷ s) t h = ground (arith, split_lines-append s t)

pub split_lines-one : (s : Text) → OneLine s → split_lines s ≡ s ∷ []
unfolding split_lines OneLine
split_lines-one [] h = refl
split_lines-one (c ∷ s) h = ground (arith, split_lines-one s)

add_or_break-append :
    (b : Bool) (c : ℕ) (lines more : List Text)
    → not (is_empty lines) ≡ true
    → (if b then [] ∷ (lines ++ more) else add_first c (lines ++ more))
      ≡ (if b then [] ∷ lines else add_first c lines) ++ more
add_or_break-append true c lines more h = refl
add_or_break-append false c [] more h = ground arith
add_or_break-append false c (line ∷ lines) more h = refl

pub split_lines-newline : (s t : Text) → split_lines (s ++ 10 ∷ t) ≡ split_lines s ++ split_lines t
unfolding split_lines
split_lines-newline [] t = refl
split_lines-newline (c ∷ s) t =
    rw (split_lines-newline s t)
      (add_or_break-append (c == 10) c (split_lines s) (split_lines t) (split_lines-some s))

abbrev pub flat : List (List Text) → List Text
flat [] = []
flat (x ∷ xs) = x ++ flat xs

-- The lines of joined texts are the lines of each.
pub split_lines-join_lines :
    (x : Text) (xs : List Text)
    → split_lines (join_lines (x ∷ xs)) ≡ flat (map split_lines (x ∷ xs))
unfolding join_lines
split_lines-join_lines x [] = sym (append-nil _)
split_lines-join_lines x (y ∷ xs) =
    split_lines-newline x (join_lines (y ∷ xs))
    ∙ ap (λ w. split_lines x ++ w) (split_lines-join_lines y xs)

-- Texts of one line each are the lines of what joins them.
pub split_lines-join_lines_one :
    (x : Text) (xs : List Text) → All OneLine (x ∷ xs) → split_lines (join_lines (x ∷ xs)) ≡ x ∷ xs
unfolding join_lines
split_lines-join_lines_one x [] (h, _) = split_lines-one x h
split_lines-join_lines_one x (y ∷ xs) (h, hs) =
    split_lines-append x (join_lines (y ∷ xs)) h
    ∙ ap (λ w. x ∷ w) (split_lines-join_lines_one y xs hs)

pub OneLine-append : (s t : Text) → OneLine s → OneLine t → OneLine (s ++ t)
unfolding OneLine
OneLine-append [] t h k = k
OneLine-append (c ∷ s) t h k = ground (arith, OneLine-append s t)
