-- ===== src/Highlight/Comments.antt =====
-- website/lib/highlight.ts: `findCommentStart` and `findGoCommentStart`. The index -1 is `none`.
pub mod Laws
pub mod Bounds
use kube_cell.Common.{
  ℕ, suc, Bool, true, false, not, ◌&&◌, [], ◌∷◌, Option, none, some, Text, is_space, ◌==◌,
  if◌then◌else◌,
}

-- `i === 0 || /\s/.test(line[i - 1])`, given `line[i - 1]`, which is there unless i is 0.
abbrev pub after_space : Option ℕ → Bool
after_space none = true
after_space (some c) = is_space c

-- The loop over `i`, with `line[i - 1]` and the units from `i` on.
pub comment_from : Bool → Bool → Option ℕ → ℕ → Text → Option ℕ
comment_from in_single in_double prev i [] = none
comment_from in_single in_double prev i (c ∷ rest) =
    let single_quote = comment_from (not in_single) in_double (some c) (suc i) rest in
    let double_quote = comment_from in_single (not in_double) (some c) (suc i) rest in
    let onward = comment_from in_single in_double (some c) (suc i) rest in
    if c == b'\'' && not in_double
    then single_quote
    else if c == b'"' && not in_single
    then double_quote
    else if c == b'#' && not in_single && not in_double
    then if after_space prev then some i else onward
    else onward

unfoldable pub find_comment_start : Text → Option ℕ
unfolding comment_from
find_comment_start line = comment_from false false none 0 line

-- `line[i + 1] === "/"`, given the units behind i.
abbrev pub next_is_slash : Text → Bool
next_is_slash [] = false
next_is_slash (c ∷ rest) = c == b'/'

pub go_comment_from : Bool → Bool → ℕ → Text → Option ℕ
go_comment_from in_double in_backtick i [] = none
go_comment_from in_double in_backtick i (c ∷ rest) =
    let double_quote = go_comment_from (not in_double) in_backtick (suc i) rest in
    let backtick = go_comment_from in_double (not in_backtick) (suc i) rest in
    let onward = go_comment_from in_double in_backtick (suc i) rest in
    if c == b'"' && not in_backtick
    then double_quote
    else if c == b'`'
    then backtick
    else if c == b'/' && next_is_slash rest && not in_double && not in_backtick
    then some i
    else onward

unfoldable pub find_go_comment_start : Text → Option ℕ
unfolding go_comment_from
find_go_comment_start line = go_comment_from false false 0 line
