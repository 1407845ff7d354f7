-- ===== src/Regex/Consumed.antt =====
-- What a match consumes: where it leads to, how much it takes at least, and where the search for it
-- stops.
use kube_cell.Common.{
  true, false, Option-cases, ℕ, ◌+◌, ◌-◌, ◌≤◌, [], ◌∷◌, ◌++◌, ◌≡◌, refl, sym, ap, ◌∙◌, ◌⊎◌, inl,
  inr, Option, none, some, arith, Text, length, length-append, take-append_left, append_assoc,
  reverse, reverse-append, reverse-reverse, append-nil,
}
use Prim.Native.Nat.{min}
use kube_cell.Regex.Defs.{
  Regex, empty, unit, seq, alt, star, boundary, at_start, at_end, ahead, group, State, text_between,
  run, search, start, test,
}
use kube_cell.Regex.Matching.{Rounds, stop, more, Matches, run-Sound}

-- The later place is reached by consuming units.
pub record Leads (s t : State) : Type 0 where
  pub consumed : Text
  pub splits : s.rest ≡ consumed ++ t.rest
  pub keeps : t.seen ≡ reverse consumed ++ s.seen

Leads-refl : (s t : State) → s ≡ t → Leads s t
Leads-refl s t e = record {
  consumed = [];
  splits = ap (λ u. u.rest) e;
  keeps = ap (λ u. u.seen) (sym e);
}

pub Leads-trans : (s t u : State) → Leads s t → Leads t u → Leads s u
Leads-trans s t u p q = record {
  consumed = p.consumed ++ q.consumed;
  splits = rw (p.splits, q.splits) (sym (append_assoc p.consumed q.consumed u.rest));
  keeps =
      rw (q.keeps, p.keeps, reverse-append)
        (sym (append_assoc (reverse q.consumed) (reverse p.consumed) s.seen));
}

Rounds-Leads :
    {R : State → State → Type 0} {s t : State}
    → ((s t : State) → R s t → Leads s t)
    → Rounds R s t
    → Leads s t
Rounds-Leads {s} {t} h (stop e) = Leads-refl s t e
Rounds-Leads {s} {t} h (more {t = u} m _ rounds) =
    Leads-trans s u t (h s u m) (Rounds-Leads h rounds)

pub Matches-Leads : (r : Regex) (s t : State) → Matches r s t → Leads s t
Matches-Leads empty s t e = Leads-refl s t e
Matches-Leads (unit p) s t (c, rest, e, _, e') = record {
  consumed = c ∷ [];
  splits = rw (e', e) refl;
  keeps = rw e' refl;
}
Matches-Leads (seq a b) s t (u, m, m') =
    Leads-trans s u t (Matches-Leads a s u m) (Matches-Leads b u t m')
Matches-Leads (alt a b) s t (inl m) = Matches-Leads a s t m
Matches-Leads (alt a b) s t (inr m) = Matches-Leads b s t m
Matches-Leads (star a) s t m = Rounds-Leads (Matches-Leads a) m
Matches-Leads boundary s t e = Leads-refl s t e
Matches-Leads at_start s t (_, e) = Leads-refl s t e
Matches-Leads at_end s t (_, e) = Leads-refl s t e
Matches-Leads (ahead a) s t (_, e) = Leads-refl s t e
Matches-Leads (group a) s t (u, m, e) =
    let l = Matches-Leads a s u m in
    record { consumed = l.consumed; splits = rw e l.splits; keeps = rw e l.keeps }

-- The text between two places is what leads from one to the other.
pub Leads-text_between : (s t : State) (l : Leads s t) → text_between s t ≡ l.consumed
Leads-text_between s t l =
    let fits : length s.rest - length t.rest ≡ length l.consumed =
      omega (arith, ap length l.splits, length-append l.consumed t.rest) in
    rw (fits, l.splits) (take-append_left l.consumed t.rest)

pub text_between_splits : (s t : State) → Leads s t → s.rest ≡ text_between s t ++ t.rest
text_between_splits s t l = rw (Leads-text_between s t l) l.splits

-- What every match of the expression takes at least.
abbrev pub min_width : Regex → ℕ
min_width empty = 0
min_width (unit p) = 1
min_width (seq a b) = min_width a + min_width b
min_width (alt a b) = min (min_width a) (min_width b)
min_width (star a) = 0
min_width boundary = 0
min_width at_start = 0
min_width at_end = 0
min_width (ahead a) = 0
min_width (group a) = min_width a

pub Leads-le : (s t : State) → Leads s t → length t.rest ≤ length s.rest
Leads-le s t l = omega (arith, ap length l.splits, length-append l.consumed t.rest)

pub Matches-min_width :
    (r : Regex) (s t : State) → Matches r s t → min_width r + length t.rest ≤ length s.rest
Matches-min_width empty s t e = rw e (omega arith)
Matches-min_width (unit p) s t (c, rest, e, _, e') = rw (e', e) (omega arith)
Matches-min_width (seq a b) s t (u, m, m') =
    omega (arith, Matches-min_width a s u m, Matches-min_width b u t m')
Matches-min_width (alt a b) s t (inl m) = omega (arith, Matches-min_width a s t m)
Matches-min_width (alt a b) s t (inr m) = omega (arith, Matches-min_width b s t m)
Matches-min_width (star a) s t m = omega (arith, Leads-le s t (Matches-Leads (star a) s t m))
Matches-min_width boundary s t e = rw e (omega arith)
Matches-min_width at_start s t (_, e) = rw e (omega arith)
Matches-min_width at_end s t (_, e) = rw e (omega arith)
Matches-min_width (ahead a) s t (_, e) = rw e (omega arith)
Matches-min_width (group a) s t (u, m, e) = rw e (Matches-min_width a s u m)

-- The search stops at a place where the expression matches, behind the units that it has passed.
pub record Found (r : Regex) (from s t : State) : Type 0 where
  pub passes : Leads from s
  pub matches : Matches r s t
  pub fresh : s.groups ≡ from.groups

here_or_later :
    (o : Option State) (at : State) (later : Option (State × State)) (s t : State)
    → (elim o [ some t ↦ some (at, t) | none ↦ later ]) ≡ some (s, t)
    → ((o ≡ some t) × (at ≡ s)) ⊎ (later ≡ some (s, t))
here_or_later none at later s t h = inr h
here_or_later (some u) at later s t h = inl (ground arith, ground arith)

Found-here :
    (r : Regex) (at s t : State) → run r at (λ t. some t) ≡ some t → at ≡ s → Found r at s t
Found-here r at s t h e =
    let (u, m, same) = run-Sound r at (λ t. some t) t h in
    let same' : u ≡ t = cc in
    record {
      passes = Leads-refl at s e;
      matches = rw (← e) (rw same' at m);
      fresh = ap (λ u. u.groups) (sym e);
    }

pub search_sound :
    (r : Regex) (seen rest : Text) (s t : State)
    → search r seen rest ≡ some (s, t)
    → Found r (start seen rest) s t
unfolding search
search_sound r seen [] s t h = elim (here_or_later _ (start seen []) none s t h) [
  | inl (h', e) ↦ Found-here r (start seen []) s t h' e
  | inr h' ↦ cc
]
search_sound r seen (c ∷ rest) s t h =
    elim (here_or_later _ (start seen (c ∷ rest)) (search r (c ∷ seen) rest) s t h) [
      | inl (h', e) ↦ Found-here r (start seen (c ∷ rest)) s t h' e
      | inr h' ↦
          let f = search_sound r (c ∷ seen) rest s t h' in
          record {
            passes =
                Leads-trans (start seen (c ∷ rest)) (start (c ∷ seen) rest) s
                  (record { consumed = c ∷ []; splits = refl; keeps = refl }) f.passes;
            matches = f.matches;
            fresh = f.fresh;
          }
    ]

-- An expression that begins with `^` matches at the beginning only.
pub search-at_start :
    (a : Regex) (rest : Text) (s t : State)
    → search (seq at_start a) [] rest ≡ some (s, t)
    → s.rest ≡ rest
search-at_start a rest s t h =
    let f = search_sound (seq at_start a) [] rest s t h in
    let keeps : s.seen ≡ reverse f.passes.consumed = f.passes.keeps ∙ append-nil _ in
    let none_passed : f.passes.consumed ≡ [] =
      sym (reverse-reverse _) ∙ ap reverse (sym keeps ∙ f.matches.1.0) in
    sym (f.passes.splits ∙ ap (λ w. w ++ s.rest) none_passed)

pub text_between_eq : (s t : State) (w : Text) → s.rest ≡ w ++ t.rest → text_between s t ≡ w
text_between_eq s t w e =
    let fits : length s.rest - length t.rest ≡ length w =
      omega (arith, ap length e, length-append w t.rest) in
    rw (fits, e) (take-append_left w t.rest)

pub test-true :
    (r : Regex) (value : Text)
    → test r value ≡ true
    → (s : State) × (t : State) × (search r [] value ≡ some (s, t))
unfolding test
test-true r value h = elim (Option-cases (search r [] value)) [
  | inl missed ↦ let bad : false ≡ true = rw missed at h in cc
  | inr ((s, t), hit) ↦ (s, t, hit)
]
