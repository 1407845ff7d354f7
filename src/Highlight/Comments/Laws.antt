-- ===== src/Highlight/Comments/Laws.antt =====
-- What the comment of a line is, described by the quotes of the text before it.
use mathlib.Core.List.{head-eq_of_cons-eq, tail-eq_of_cons-eq}
use kube_cell.Common.{
  ℕ, suc, ◌+◌, ◌<◌, Bool, true, false, [], ◌∷◌, ◌++◌, ◌≡◌, ap, ◌⊎◌, inl, inr, Option, none, some,
  sym, arith, Text, length, ◌==◌, if◌then◌else◌,
}
use kube_cell.Highlight.Comments.{after_space, comment_from, find_comment_start}

-- Where a shell or YAML line is with respect to its quotes.
pub data Quote : Type 0 where
  outside in_single_quotes in_double_quotes : Quote

abbrev after_unit : Quote → ℕ → Quote
after_unit outside c =
    if c == b'\'' then in_single_quotes else if c == b'"' then in_double_quotes else outside
after_unit in_single_quotes c = if c == b'\'' then outside else in_single_quotes
after_unit in_double_quotes c = if c == b'"' then outside else in_double_quotes

abbrev quote_from : Quote → Text → Quote
quote_from q [] = q
quote_from q (c ∷ s) = quote_from (after_unit q c) s

-- The last unit, if there is one.
abbrev last_from : Option ℕ → Text → Option ℕ
last_from prev [] = prev
last_from prev (c ∷ s) = last_from (some c) s

-- A `#` behind this text begins a comment: the text leaves no quote open, and it is empty or ends
-- in white space.
abbrev pub OpensComment : Text → Type 0
OpensComment before =
    (quote_from outside before ≡ outside) × (after_space (last_from none before) ≡ true)

-- Where the comment of the line begins, and that no earlier `#` begins one.
pub record CommentAt (line : Text) (i : ℕ) : Type 0 where
  pub before : Text
  pub after : Text
  pub splits : line ≡ before ++ b'#' ∷ after
  pub starts : i ≡ length before
  pub opens : OpensComment before
  pub earliest : (b a : Text) → line ≡ b ++ b'#' ∷ a → length b < length before → ¬ OpensComment b

abbrev single_of : Quote → Bool
single_of in_single_quotes = true
single_of _ = false

abbrev double_of : Quote → Bool
double_of in_double_quotes = true
double_of _ = false

abbrev Opens : Quote → Option ℕ → Text → Type 0
Opens q prev before = (quote_from q before ≡ outside) × (after_space (last_from prev before) ≡ true)

-- The same from the middle of a line.
record Begins (q : Quote) (prev : Option ℕ) (i : ℕ) (rest : Text) (n : ℕ) : Type 0 where
  before : Text
  after : Text
  splits : rest ≡ before ++ b'#' ∷ after
  starts : n ≡ i + length before
  opens : Opens q prev before
  earliest : (b a : Text) → rest ≡ b ++ b'#' ∷ a → length b < length before → ¬ Opens q prev b

abbrev NoneBegins : Quote → Option ℕ → Text → Type 0
NoneBegins q prev rest = (b a : Text) → rest ≡ b ++ b'#' ∷ a → ¬ Opens q prev b

abbrev Finds : Quote → Option ℕ → ℕ → Text → Option ℕ → Type 0
Finds q prev i rest none = NoneBegins q prev rest
Finds q prev i rest (some n) = Begins q prev i rest n

-- One unit of the loop: it stops at a `#` that opens a comment, or goes on behind the unit.
comment_from_step :
    (q : Quote) (prev : Option ℕ) (i c : ℕ) (rest : Text)
    → ((c ≡ b'#')
        × (q ≡ outside)
        × (after_space prev ≡ true)
        × (comment_from (single_of q) (double_of q) prev i (c ∷ rest) ≡ some i))
      ⊎ ((c ≡ b'#' → ¬ Opens q prev [])
          × (comment_from (single_of q) (double_of q) prev i (c ∷ rest)
              ≡ comment_from
                  (single_of (after_unit q c))
                  (double_of (after_unit q c))
                  (some c)
                  (suc i)
                  rest))
unfolding comment_from
comment_from_step outside prev i c rest = ground arith
comment_from_step in_single_quotes prev i c rest = ground arith
comment_from_step in_double_quotes prev i c rest = ground arith

-- What holds of a `#` further on holds of it behind one more unit.
pass_unit :
    (q : Quote) (prev : Option ℕ) (c : ℕ) (rest b a : Text) (P : Text → Type 0)
    → (c ≡ b'#' → ¬ Opens q prev [])
    → ((b' a' : Text) → rest ≡ b' ++ b'#' ∷ a' → P (c ∷ b') → ¬ Opens (after_unit q c) (some c) b')
    → c ∷ rest ≡ b ++ b'#' ∷ a
    → P b
    → ¬ Opens q prev b
pass_unit q prev c rest [] a P first later e p = first (head-eq_of_cons-eq e)
pass_unit q prev c rest (d ∷ b) a P first later e p =
    let same : d ≡ c = sym (head-eq_of_cons-eq e) in
    let p' : P (c ∷ b) = rw (← same) p in λ o. later b a (tail-eq_of_cons-eq e) p' (rw same at o)

pass :
    (q : Quote) (prev : Option ℕ) (i c : ℕ) (rest : Text) (o : Option ℕ)
    → (c ≡ b'#' → ¬ Opens q prev [])
    → Finds (after_unit q c) (some c) (suc i) rest o
    → Finds q prev i (c ∷ rest) o
pass q prev i c rest none first later =
    λ b a e. pass_unit q prev c rest b a (λ _. Unit {0}) first (λ b' a' e' _. later b' a' e') e tt
pass q prev i c rest (some n) first later = record {
  before = c ∷ later.before;
  after = later.after;
  splits = ap (◌∷◌ c) later.splits;
  starts = omega arith;
  opens = later.opens;
  earliest = λ b a e shorter.
      pass_unit q prev c rest b a (λ b'. length b' < suc (length later.before)) first
        (λ b' a' e' s. later.earliest b' a' e' (omega arith)) e shorter;
}

-- No text stands before the end of the line.
nil-NoneBegins : (q : Quote) (prev : Option ℕ) → NoneBegins q prev []
nil-NoneBegins q prev [] a e = cc
nil-NoneBegins q prev (c ∷ b) a e = cc

comment_from-Finds :
    (q : Quote) (prev : Option ℕ) (i : ℕ) (rest : Text)
    → Finds q prev i rest (comment_from (single_of q) (double_of q) prev i rest)
comment_from-Finds q prev i [] = unfold comment_from in nil-NoneBegins q prev
comment_from-Finds q prev i (c ∷ rest) = elim (comment_from_step q prev i c rest) [
  | inl (hash, out, space, found) ↦ rw found (record {
    before = [];
    after = rest;
    splits = ap (λ d. d ∷ rest) hash;
    starts = omega arith;
    opens = (out, space);
    earliest = λ b a e shorter. absurd (omega arith);
  })
  | inr (first, onward) ↦
      rw onward
        (pass q prev i c rest _ first (comment_from-Finds (after_unit q c) (some c) (suc i) rest))
]

-- What the reported place says: a comment that begins there, or, for -1, that no `#` begins one.
abbrev pub IsFirstComment : Text → Option ℕ → Type 0
IsFirstComment line none =
    (before after : Text) → line ≡ before ++ b'#' ∷ after → ¬ OpensComment before
IsFirstComment line (some i) = CommentAt line i

to_first : (line : Text) (o : Option ℕ) → Finds outside none 0 line o → IsFirstComment line o
to_first line none n = n
to_first line (some i) b = record {
  before = b.before;
  after = b.after;
  splits = b.splits;
  starts = omega arith;
  opens = b.opens;
  earliest = b.earliest;
}

-- The comment of a shell, YAML or JSON line begins at the first `#` that stands outside quotes and
-- is the first unit of the line or stands behind white space; -1 is returned only if there is none.
pub find_comment_start-IsFirstComment :
    (line : Text) → IsFirstComment line (find_comment_start line)
unfolding find_comment_start
find_comment_start-IsFirstComment line = to_first line _ (comment_from-Finds outside none 0 line)
