-- ===== src/Regex/Captures.antt =====
-- What the capture groups of a match hold.
use kube_cell.Common.{
  List, [], ◌∷◌, ◌++◌, ◌≡◌, refl, sym, ap, ◌∙◌, inl, inr, Text, append-nil, append_assoc,
}
use kube_cell.Regex.Defs.{
  Regex, empty, unit, seq, alt, star, boundary, at_start, at_end, ahead, group, State, text_between,
}
use kube_cell.Regex.Consumed.{Matches-Leads, text_between_splits}
use kube_cell.Regex.Matching.{Rounds, stop, more, Matches}

-- An expression with no capture group outside its look-aheads.
abbrev pub IsFlat : Regex → Type 0
IsFlat (seq a b) = IsFlat a × IsFlat b
IsFlat (alt a b) = IsFlat a × IsFlat b
IsFlat (star a) = IsFlat a
IsFlat (group a) = ⊥
IsFlat _ = Unit

Rounds-groups :
    {R : State → State → Type 0} {s t : State}
    → ((s t : State) → R s t → t.groups ≡ s.groups)
    → Rounds R s t
    → t.groups ≡ s.groups
Rounds-groups h (stop e) = ap (λ u. u.groups) (sym e)
Rounds-groups {s} h (more {t = u} m _ rounds) = Rounds-groups h rounds ∙ h s u m

pub Matches-groups : (r : Regex) (s t : State) → IsFlat r → Matches r s t → t.groups ≡ s.groups
Matches-groups empty s t f e = ap (λ u. u.groups) (sym e)
Matches-groups (unit p) s t f (c, rest, _, _, e) = ap (λ u. u.groups) e
Matches-groups (seq a b) s t (f, g) (u, m, m') =
    Matches-groups b u t g m' ∙ Matches-groups a s u f m
Matches-groups (alt a b) s t (f, g) (inl m) = Matches-groups a s t f m
Matches-groups (alt a b) s t (f, g) (inr m) = Matches-groups b s t g m
Matches-groups (star a) s t f m = Rounds-groups (λ s t. Matches-groups a s t f) m
Matches-groups boundary s t f e = ap (λ u. u.groups) (sym e)
Matches-groups at_start s t f (_, e) = ap (λ u. u.groups) (sym e)
Matches-groups at_end s t f (_, e) = ap (λ u. u.groups) (sym e)
Matches-groups (ahead a) s t f (_, e) = ap (λ u. u.groups) (sym e)
Matches-groups (group a) s t f m = absurd f

-- A group captures what its expression consumes.
pub Matches-capture :
    (r : Regex) (s t : State)
    → IsFlat r
    → Matches (group r) s t
    → t.groups ≡ s.groups ++ text_between s t ∷ []
Matches-capture r s t f (u, m, e) = rw (e, Matches-groups r s u f m) refl

abbrev pub concat : List Text → Text
concat [] = []
concat (x ∷ xs) = x ++ concat xs

-- Between the two places the groups capture the texts, which are all that is consumed.
pub record Captures (s t : State) (xs : List Text) : Type 0 where
  pub held : t.groups ≡ s.groups ++ xs
  pub splits : s.rest ≡ concat xs ++ t.rest

pub Captures-group :
    (r : Regex) (s t : State)
    → IsFlat r
    → Matches (group r) s t
    → Captures s t (text_between s t ∷ [])
Captures-group r s t f m = record {
  held = Matches-capture r s t f m;
  splits =
      text_between_splits s t (Matches-Leads (group r) s t m)
      ∙ ap (λ w. w ++ t.rest) (sym (append-nil (text_between s t)));
}

pub Captures-seq :
    (r : Regex) (s u t : State) (xs : List Text)
    → IsFlat r
    → Matches (group r) s u
    → Captures u t xs
    → Captures s t (text_between s u ∷ xs)
Captures-seq r s u t xs f m c =
    let g = Captures-group r s u f m in
    record {
      held = c.held ∙ ap (λ w. w ++ xs) g.held ∙ append_assoc s.groups (text_between s u ∷ []) xs;
      splits =
          text_between_splits s u (Matches-Leads (group r) s u m)
          ∙ ap (◌++◌ (text_between s u)) c.splits
          ∙ sym (append_assoc (text_between s u) (concat xs) t.rest);
    }

pub Captures-from : (s u t : State) (xs : List Text) → s ≡ u → Captures u t xs → Captures s t xs
Captures-from s u t xs same c = rw same c
