-- ===== src/Regex/Defs.antt =====
-- The syntax of regular expressions and the matcher.
use kube_cell.Common.{
  ℕ, zero, suc, ◌-◌, Bool, true, false, not, ◌&&◌, ◌||◌, List, [], ◌∷◌, ◌++◌, Option, none, some,
  Text, length, take, any, is_empty, ltb, leb, ◌==◌, if◌then◌else◌, ◌>>=◌,
}

pub data Regex : Type 0 where
  empty : Regex
  -- one code unit of a class
  unit : (ℕ → Bool) → Regex
  seq alt : Regex → Regex → Regex
  -- greedy: `(?:a)*`
  star : Regex → Regex
  -- `\b`, `^` and `$`
  boundary at_start at_end : Regex
  -- `(?=a)`
  ahead : Regex → Regex
  -- a capture group
  group : Regex → Regex

-- A place in the input: what stands before it, the last unit first, what stands behind it, and the
-- groups captured on the way.
pub record State : Type 0 where
  pub seen : Text
  pub rest : Text
  pub groups : List Text

-- The units between a place and a later one.
abbrev pub text_between : State → State → Text
text_between s t = take (length s.rest - length t.rest) s.rest

abbrev pub is_digit : ℕ → Bool
is_digit c = leb b'0' c && leb c b'9'

abbrev pub is_letter : ℕ → Bool
is_letter c = (leb b'A' c && leb c b'Z') || (leb b'a' c && leb c b'z')

-- `\w`
abbrev pub is_word_unit : ℕ → Bool
is_word_unit c = is_letter c || is_digit c || c == b'_'

-- What `.` leaves out.
abbrev pub is_newline : ℕ → Bool
is_newline c = c == 10 || c == 13 || c == 0x2028 || c == 0x2029

abbrev head_is_word : Text → Bool
head_is_word [] = false
head_is_word (c ∷ s) = is_word_unit c

abbrev xor : Bool → Bool → Bool
xor true b = not b
xor false b = b

-- What a matcher does from a place, with what is still to be matched behind it.
abbrev Matcher : Type 0
Matcher = State → (State → Option State) → Option State

abbrev pub step : (ℕ → Bool) → State → Text → (State → Option State) → Option State
step p s [] k = none
step p s (c ∷ rest) k = if p c then k (record s { seen = c ∷ s.seen; rest = rest }) else none

-- The rounds of a greedy repetition. A round that consumes nothing is refused, so as many rounds as
-- there are units left are enough.
unfoldable pub iterate : Matcher → ℕ → Matcher
iterate m zero s k = k s
iterate m (suc n) s k =
    elim (m s
      (λ t. elim (ltb (length t.rest) (length s.rest)) [ true ↦ iterate m n t k | false ↦ none ])) [
        | some t ↦ some t
        | none ↦ k s
      ]

unfoldable pub run : Regex → Matcher
unfolding iterate
run empty s k = k s
run (unit p) s k = step p s s.rest k
run (seq a b) s k = run a s (λ t. run b t k)
run (alt a b) s k = elim (run a s k) [ some t ↦ some t | none ↦ run b s k ]
run (star a) s k = iterate (run a) (length s.rest) s k
run boundary s k = if xor (head_is_word s.seen) (head_is_word s.rest) then k s else none
run at_start s k = if is_empty s.seen then k s else none
run at_end s k = if is_empty s.rest then k s else none
run (ahead a) s k = elim (run a s (λ t. some t)) [ some t ↦ k s | none ↦ none ]
run (group a) s k = run a s (λ t. k (record t { groups = t.groups ++ text_between s t ∷ [] }))

abbrev pub start : Text → Text → State
start seen rest = record { seen = seen; rest = rest; groups = [] }

-- The first place at which the expression matches, and the place where that match ends.
unfoldable pub search : Regex → Text → Text → Option (State × State)
unfolding run
search r seen [] = elim (run r (start seen []) (λ t. some t)) [
  | some t ↦ some (start seen [], t)
  | none ↦ none
]
search r seen (c ∷ rest) = elim (run r (start seen (c ∷ rest)) (λ t. some t)) [
  | some t ↦ some (start seen (c ∷ rest), t)
  | none ↦ search r (c ∷ seen) rest
]

-- `text.match(r)` for an expression without the flag g: the text and the groups of the first match.
unfoldable pub first_match : Regex → Text → Option (Text × List Text)
unfolding search
first_match r text = do (s, t) ← search r [] text; some (text_between s t, t.groups)

abbrev is_some : Option (State × State) → Bool
is_some none = false
is_some (some _) = true

-- `r.test(text)` for an expression without the flag g.
unfoldable pub test : Regex → Text → Bool
unfolding search
test r text = is_some (search r [] text)

-- `while ((match = pattern.exec(text)) !== null) { body; lastIndex = match.index + match[0].length; }`
-- for a pattern with the flag g. The body is given `text.slice(lastIndex, match.index)` and
-- `match[0]`; the loop returns what the body has accumulated and the place of `lastIndex`.
unfoldable pub exec_loop {ℓ} :
    {S : Type ℓ} → Regex → (Text → Text → S → Option S) → ℕ → State → S → Option (S × State)
unfolding search
exec_loop r body zero at acc = none
exec_loop r body (suc fuel) at acc = elim (search r at.seen at.rest) [
  | none ↦ some (acc, at)
  | some (s, t) ↦ do
    next ← body (text_between at s) (text_between s t) acc
    exec_loop r body fuel t next
]

-- Notation for what the source writes.
abbrev pub char : ℕ → Regex
char c = unit (λ d. c == d)

abbrev pub word : Text → Regex
word [] = empty
word (c ∷ s) = seq (char c) (word s)

abbrev pub opt : Regex → Regex
opt r = alt r empty

abbrev pub plus : Regex → Regex
plus r = seq r (star r)

abbrev pub one_of : Text → ℕ → Bool
one_of cs c = any (λ d. c == d) cs
