-- ===== src/Regex/Fuel.antt =====
-- The fuel of a repetition.
use mathlib.Core.Path.{fun_ext}
use kube_cell.Common.{
  ℕ, zero, suc, ◌≤◌, Bool, true, false, Option, none, some, ◌≡◌, refl, ap, length, ltb, arith, ◌∙◌,
  sym, if◌then◌else◌, Text, [], ◌∷◌, ◌<◌,
}
use kube_cell.Regex.Defs.{
  Regex, empty, unit, seq, alt, star, boundary, at_start, at_end, ahead, group, State, step,
  iterate, run,
}

Fails : (State → Option State) → Type 0
Fails k = (t : State) → k t ≡ none

guarded-Fails :
    (b : Bool) (o : Option State) → o ≡ none → (elim b [ true ↦ o | false ↦ none ]) ≡ none
guarded-Fails true o h = h
guarded-Fails false o h = refl

abbrev or_else : Option State → Option State → Option State
or_else o other = elim o [ some t ↦ some t | none ↦ other ]

-- What a round goes on with: a round that consumes nothing is refused.
abbrev guarded :
    (State → (State → Option State) → Option State)
    → State
    → (State → Option State)
    → State
    → Option State
guarded again s k t = elim (ltb (length t.rest) (length s.rest)) [ true ↦ again t k | false ↦ none ]

guarded_if-eq :
    (b : Bool) (o o' : Option State)
    → (b ≡ true → o ≡ o')
    → (elim b [ true ↦ o | false ↦ none ]) ≡ (elim b [ true ↦ o' | false ↦ none ])
guarded_if-eq true o o' h = h refl
guarded_if-eq false o o' h = refl

if-fails : (b : Bool) (o : Option State) → o ≡ none → (if b then o else none) ≡ none
if-fails true o h = h
if-fails false o h = refl

seen-fails : (found o : Option State) → o ≡ none → (elim found [ some t ↦ o | none ↦ none ]) ≡ none
seen-fails none o h = refl
seen-fails (some t) o h = h

ltb-zero : (n : ℕ) → ltb n 0 ≡ false
ltb-zero n = ground arith

not_less_zero : (n : ℕ) (o : Option State) → (elim (ltb n 0) [ true ↦ o | false ↦ none ]) ≡ none
not_less_zero n o = ap (λ b. elim b as (λ _. Option State) [ true ↦ o | false ↦ none ]) (ltb-zero n)

ltb-less : (a b : ℕ) → ltb a b ≡ true → a < b
ltb-less a b h = ground arith

nothing_left :
    (again : State → (State → Option State) → Option State) (s : State) (k : State → Option State)
    → length s.rest ≡ 0
    → Fails (guarded again s k)
unfolding Fails
nothing_left again s k h t =
    ap {A = ℕ}
      (λ m. elim (ltb (length t.rest) m) as (λ _. Option State) [ true ↦ again t k | false ↦ none ])
      h
    ∙ not_less_zero (length t.rest) (again t k)

step-Fails :
    (p : ℕ → Bool) (s : State) (rest : Text) (k : State → Option State)
    → Fails k
    → step p s rest k ≡ none
unfolding Fails
step-Fails p s [] k fails = refl
step-Fails p s (c ∷ rest) k fails = if-fails (p c) _ (fails _)

iterate-Fails :
    (m : State → (State → Option State) → Option State)
    → ((s : State) (k : State → Option State) → Fails k → m s k ≡ none)
    → (n : ℕ) (s : State) (k : State → Option State) → Fails k
    → iterate m n s k ≡ none
unfolding iterate Fails
iterate-Fails m h zero s k fails = fails s
iterate-Fails m h (suc n) s k fails =
    ap (λ o. or_else o (k s))
      (h s (guarded (iterate m n) s k) (λ t.
        guarded-Fails (ltb (length t.rest) (length s.rest)) _ (iterate-Fails m h n t k fails)))
    ∙ fails s

-- An expression behind which nothing matches does not match.
run-Fails : (r : Regex) (s : State) (k : State → Option State) → Fails k → run r s k ≡ none
unfolding run Fails
run-Fails empty s k fails = fails s
run-Fails (unit p) s k fails = step-Fails p s s.rest k fails
run-Fails (seq a b) s k fails = run-Fails a s _ (λ t. run-Fails b t k fails)
run-Fails (alt a b) s k fails =
    ap (λ o. or_else o (run b s k)) (run-Fails a s k fails) ∙ run-Fails b s k fails
run-Fails (star a) s k fails = iterate-Fails (run a) (run-Fails a) (length s.rest) s k fails
run-Fails boundary s k fails = if-fails _ (k s) (fails s)
run-Fails at_start s k fails = if-fails _ (k s) (fails s)
run-Fails at_end s k fails = if-fails _ (k s) (fails s)
run-Fails (ahead a) s k fails = seen-fails (run a s (λ t. some t)) (k s) (fails s)
run-Fails (group a) s k fails = run-Fails a s _ (λ t. fails _)

guarded-eq :
    (m : State → (State → Option State) → Option State) (n n' : ℕ) (s : State)
    (k : State → Option State)
    → ((t : State) → length t.rest < length s.rest → iterate m n t k ≡ iterate m n' t k)
    → (t : State) → guarded (iterate m n) s k t ≡ guarded (iterate m n') s k t
guarded-eq m n n' s k h t =
    guarded_if-eq (ltb (length t.rest) (length s.rest)) _ _ (λ less. h t (ltb-less _ _ less))

iterate-enough :
    (r : Regex) (n n' : ℕ) (s : State) (k : State → Option State)
    → length s.rest ≤ n
    → length s.rest ≤ n'
    → iterate (run r) n s k ≡ iterate (run r) n' s k
unfolding iterate
iterate-enough r zero zero s k h h' = refl
iterate-enough r zero (suc n') s k h h' = sym (
    ap (λ o. or_else o (k s))
      (run-Fails r s (guarded (iterate (run r) n') s k)
        (nothing_left (iterate (run r) n') s k (omega arith))))
iterate-enough r (suc n) zero s k h h' =
    ap (λ o. or_else o (k s))
      (run-Fails r s (guarded (iterate (run r) n) s k)
        (nothing_left (iterate (run r) n) s k (omega arith)))
iterate-enough r (suc n) (suc n') s k h h' =
    ap (λ g. or_else (run r s g) (k s))
      (fun_ext (
        guarded-eq (run r) n n' s k
          (λ t less. iterate-enough r n n' t k (omega arith) (omega arith))))

-- Every fuel that is at least the number of units left gives what a repetition gives: no
-- repetition is cut short by its fuel.
pub iterate-star :
    (r : Regex) (n : ℕ) (s : State) (k : State → Option State)
    → length s.rest ≤ n
    → iterate (run r) n s k ≡ run (star r) s k
unfolding run
iterate-star r n s k h = iterate-enough r n (length s.rest) s k h (omega arith)
