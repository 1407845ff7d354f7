-- ===== src/Highlight/Comments/Bounds.antt =====
-- Where in the line the comments begin that the two searches report.
use kube_cell.Common.{
  ℕ, suc, ◌+◌, ◌-◌, ◌≤◌, Bool, true, false, not, ◌&&◌, [], ◌∷◌, Option, none, some, Text, units,
  length, drop, starts_with, ◌==◌, if◌then◌else◌, ◌≡◌, refl, arith,
}
use kube_cell.Highlight.Comments.{
  after_space, comment_from, find_comment_start, next_is_slash, go_comment_from,
  find_go_comment_start,
}

-- From the unit at i on, the marker stands whole at the reported place.
unfoldable MarkerFrom : Text → ℕ → Text → Option ℕ → Type 0
MarkerFrom marker i rest none = Unit
MarkerFrom marker i rest (some n) =
    (i ≤ n)
    × (n - i + length marker ≤ length rest)
    × (starts_with (drop (n - i) rest) marker ≡ true)

-- The marker stands in the line at the reported place, if one is reported.
unfoldable pub MarkerAt : Text → Text → Option ℕ → Type 0
MarkerAt marker line none = Unit
MarkerAt marker line (some i) =
    (i + length marker ≤ length line) × (starts_with (drop i line) marker ≡ true)

drop_next : (n i c : ℕ) (rest : Text) → suc i ≤ n → drop (n - i) (c ∷ rest) ≡ drop (n - suc i) rest
drop_next n i c rest h = let e : n - i ≡ suc (n - suc i) = omega arith in rw e refl

further :
    (marker : Text) (i c : ℕ) (rest : Text) (o : Option ℕ)
    → MarkerFrom marker (suc i) rest o
    → MarkerFrom marker i (c ∷ rest) o
unfolding MarkerFrom
further marker i c rest none h = tt
further marker i c rest (some n) (h, k, l) =
    (omega arith, omega arith, rw (drop_next n i c rest h) l)

here :
    (marker : Text) (i : ℕ) (s : Text)
    → length marker ≤ length s
    → starts_with s marker ≡ true
    → MarkerFrom marker i s (some i)
unfolding MarkerFrom
here marker i s h k = let e : i - i ≡ 0 = omega arith in (omega arith, omega arith, rw e k)

either {ℓ κ} :
    {A : Type ℓ} (P : A → Type κ) (b : Bool) (x y : A)
    → (b ≡ true → P x)
    → P y
    → P (if b then x else y)
either P true x y p q = p refl
either P false x y p q = q

nowhere : (marker : Text) (i : ℕ) (s : Text) → MarkerFrom marker i s none
unfolding MarkerFrom
nowhere marker i s = tt

hash_here :
    (c : ℕ) (rest : Text) (i : ℕ) (a b : Bool)
    → (c == b'#' && a && b) ≡ true
    → MarkerFrom (units "#") i (c ∷ rest) (some i)
hash_here c rest i a b e = here (units "#") i (c ∷ rest) (omega arith) (ground arith)

slashes_here :
    (c : ℕ) (rest : Text) (i : ℕ) (a b : Bool)
    → (c == b'/' && next_is_slash rest && a && b) ≡ true
    → MarkerFrom (units "//") i (c ∷ rest) (some i)
slashes_here c [] i a b e = absurd (ground arith)
slashes_here c (d ∷ rest) i a b e = here (units "//") i (c ∷ d ∷ rest) (omega arith) (ground arith)

comment_from-MarkerFrom :
    (single double : Bool) (prev : Option ℕ) (i : ℕ) (rest : Text)
    → MarkerFrom (units "#") i rest (comment_from single double prev i rest)
unfolding comment_from
comment_from-MarkerFrom single double prev i [] = nowhere (units "#") i []
comment_from-MarkerFrom single double prev i (c ∷ rest) =
    let P = MarkerFrom (units "#") i (c ∷ rest) in
    let later = λ (s d : Bool).
      further (units "#") i c rest _ (comment_from-MarkerFrom s d (some c) (suc i) rest) in
    either P _ _ _ (λ _. later (not single) double)
      (either P _ _ _ (λ _. later single (not double))
        (either P _ _ _
          (λ e.
            either P (after_space prev) _ _ (λ _. hash_here c rest i (not single) (not double) e)
              (later single double))
          (later single double)))

go_comment_from-MarkerFrom :
    (double backtick : Bool) (i : ℕ) (rest : Text)
    → MarkerFrom (units "//") i rest (go_comment_from double backtick i rest)
unfolding go_comment_from
go_comment_from-MarkerFrom double backtick i [] = nowhere (units "//") i []
go_comment_from-MarkerFrom double backtick i (c ∷ rest) =
    let P = MarkerFrom (units "//") i (c ∷ rest) in
    let later = λ (d b : Bool).
      further (units "//") i c rest _ (go_comment_from-MarkerFrom d b (suc i) rest) in
    either P _ _ _ (λ _. later (not double) backtick)
      (either P _ _ _ (λ _. later double (not backtick))
        (either P _ _ _ (λ e. slashes_here c rest i (not double) (not backtick) e)
          (later double backtick)))

from_first :
    (marker line : Text) (o : Option ℕ) → MarkerFrom marker 0 line o → MarkerAt marker line o
unfolding MarkerFrom MarkerAt
from_first marker line none h = tt
from_first marker line (some i) (h, k, l) =
    let e : i - 0 ≡ i = omega arith in (omega arith, rw e at l)

-- Where a comment is said to begin its marker stands whole within the line: `#` for the languages
-- with shell comments, `//` for Go; so the slices at the reported index are taken inside the line.
pub comment_starts-MarkerAt :
    (line : Text)
    → MarkerAt (units "#") line (find_comment_start line)
      × MarkerAt (units "//") line (find_go_comment_start line)
unfolding find_comment_start find_go_comment_start
comment_starts-MarkerAt line = (
  from_first (units "#") line _ (comment_from-MarkerFrom false false none 0 line),
  from_first (units "//") line _ (go_comment_from-MarkerFrom false false 0 line),
)
