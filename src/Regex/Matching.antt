-- ===== src/Regex/Matching.antt =====
-- What a successful match says: the declarative reading of each construct, which the matcher meets.
use kube_cell.Common.{
  ℕ, zero, suc, ◌<◌, Bool, true, false, [], ◌∷◌, ◌++◌, ◌≡◌, refl, ◌⊎◌, inl, inr, Option, none, some,
  Text, length, is_empty, if◌then◌else◌, Bool-cases, ltb→lt,
}
use kube_cell.Regex.Defs.{
  Regex, empty, unit, seq, alt, star, boundary, at_start, at_end, ahead, group, State, text_between,
  step, iterate, run,
}

-- Rounds of a repetition, each of which consumes something.
pub data Rounds (R : State → State → Type 0) : State → State → Type 0 where
  stop : {s t : State} → s ≡ t → Rounds R s t
  more : {s t u : State} → R s t → length t.rest < length s.rest → Rounds R t u → Rounds R s u

-- The expression matches the units between the two places; an assertion consumes none.
abbrev pub Matches : Regex → State → State → Type 0
Matches empty s t = s ≡ t
Matches (unit p) s t =
    (c : ℕ) × (rest : Text) × (s.rest ≡ c ∷ rest)
    × (p c ≡ true)
    × (t ≡ record s { seen = c ∷ s.seen; rest = rest })
Matches (seq a b) s t = (u : State) × Matches a s u × Matches b u t
Matches (alt a b) s t = Matches a s t ⊎ Matches b s t
Matches (star a) s t = Rounds (Matches a) s t
Matches boundary s t = s ≡ t
Matches at_start s t = (s.seen ≡ []) × (s ≡ t)
Matches at_end s t = (s.rest ≡ []) × (s ≡ t)
Matches (ahead a) s t = ((u : State) × Matches a s u) × (s ≡ t)
Matches (group a) s t =
    (u : State) × Matches a s u × (t ≡ record u { groups = u.groups ++ text_between s u ∷ [] })

abbrev Sound : Regex → Type 0
Sound r =
    (s : State) (k : State → Option State) (u : State)
    → run r s k ≡ some u
    → (t : State) × Matches r s t × (k t ≡ some u)

step_sound :
    (p : ℕ → Bool) (s : State) (rest : Text) (k : State → Option State) (u : State)
    → s.rest ≡ rest
    → step p s rest k ≡ some u
    → (t : State) × Matches (unit p) s t × (k t ≡ some u)
step_sound p s [] k u e h = cc
step_sound p s (c ∷ rest) k u e h = elim (Bool-cases (p c)) [
  | inl holds ↦
      (record s { seen = c ∷ s.seen; rest = rest }, (c, rest, e, holds, refl), rw holds at h)
  | inr fails ↦ let bad : none ≡ some u = rw fails at h in cc
]

either :
    (o p : Option State) (u : State)
    → (elim o [ some t ↦ some t | none ↦ p ]) ≡ some u
    → (o ≡ some u) ⊎ (p ≡ some u)
either none p u h = inr h
either (some t) p u h = inl h

only_if :
    (b : Bool) (o : Option State) (u : State)
    → (if b then o else none) ≡ some u
    → (b ≡ true) × (o ≡ some u)
only_if true o u h = (refl, h)
only_if false o u h = cc

when_some :
    (o p : Option State) (u : State)
    → (elim o [ some t ↦ p | none ↦ none ]) ≡ some u
    → (t : State) × (o ≡ some t) × (p ≡ some u)
when_some none p u h = cc
when_some (some t) p u h = (t, refl, h)

when_true :
    (b : Bool) (o : Option State) (u : State)
    → (elim b [ true ↦ o | false ↦ none ]) ≡ some u
    → (b ≡ true) × (o ≡ some u)
when_true true o u h = (refl, h)
when_true false o u h = cc

is_empty→nil : (x : Text) → is_empty x ≡ true → x ≡ []
is_empty→nil [] h = refl
is_empty→nil (c ∷ x) h = cc

iterate-Sound :
    (a : Regex)
    → Sound a
    → (n : ℕ) (s : State) (k : State → Option State) (u : State) → iterate (run a) n s k ≡ some u
    → (t : State) × Rounds (Matches a) s t × (k t ≡ some u)
unfolding iterate
iterate-Sound a ih zero s k u h = (s, stop refl, h)
iterate-Sound a ih (suc n) s k u h = elim (either (run a s _) (k s) u h) [
  | inl again ↦
      let (t, m, h') = ih s _ u again in
      let (shorter, h'') = when_true _ (iterate (run a) n t k) u h' in
      let (v, rounds, done) = iterate-Sound a ih n t k u h'' in
      (v, more m (ltb→lt _ _ shorter) rounds, done)
  | inr done ↦ (s, stop refl, done)
]

-- A match found by the matcher is a match, and what is behind it accepts the place where it ends.
pub run-Sound : (r : Regex) → Sound r
unfolding run
run-Sound empty s k u h = (s, refl, h)
run-Sound (unit p) s k u h = step_sound p s s.rest k u refl h
run-Sound (seq a b) s k u h =
    let (t, m, h') = run-Sound a s _ u h in
    let (v, m', h'') = run-Sound b t k u h' in (v, (t, m, m'), h'')
run-Sound (alt a b) s k u h = elim (either (run a s k) (run b s k) u h) [
  | inl left ↦ let (t, m, h') = run-Sound a s k u left in (t, inl m, h')
  | inr right ↦ let (t, m, h') = run-Sound b s k u right in (t, inr m, h')
]
run-Sound (star a) s k u h = iterate-Sound a (run-Sound a) (length s.rest) s k u h
run-Sound boundary s k u h = (s, refl, (only_if _ (k s) u h).1)
run-Sound at_start s k u h =
    let (b, h') = only_if _ (k s) u h in (s, (is_empty→nil s.seen b, refl), h')
run-Sound at_end s k u h =
    let (b, h') = only_if _ (k s) u h in (s, (is_empty→nil s.rest b, refl), h')
run-Sound (ahead a) s k u h =
    let (t, found, h') = when_some (run a s (λ t. some t)) (k s) u h in
    let (v, m, _) = run-Sound a s (λ t. some t) t found in (s, ((v, m), refl), h')
run-Sound (group a) s k u h = let (t, m, h') = run-Sound a s _ u h in (_, (t, m, refl), h')
