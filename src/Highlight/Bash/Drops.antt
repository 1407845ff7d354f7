-- ===== src/Highlight/Bash/Drops.antt =====
-- The white space that `pushPlain` drops from the command of a shell line.
use kube_cell.Common.{
  ℕ, ◌-◌, ◌<◌, ◌≤◌, true, false, List, [], ◌∷◌, ◌++◌, ◌≡◌, refl, sym, ap, ◌∙◌, inl, inr, some,
  arith, Text, length, length-append, is_space, is_empty, trim_start, trim, trim_end, Bool-cases,
  Option-cases, reverse,
}
use mathlib.Core.List.{reverse-cons, reverse-append, head-eq_of_cons-eq}
use kube_cell.Highlight.Types.{Token, text_of}
use kube_cell.Highlight.Patterns.{spaces}
use kube_cell.Highlight.Bash.{bash_pattern, leading_spaces, tokenize_bash}
use kube_cell.Highlight.Bash.Gap.{shown_gap, begin, bash_shown, tokenize_bash-Shows}
use kube_cell.Regex.{unit, seq, at_start, State, text_between, search, first_match}
use kube_cell.Regex.Consumed.{Matches-Leads, text_between_splits, search_sound, search-at_start}
use kube_cell.Regex.Matching.{Rounds, stop, more, Matches}

length-reverse : (s : Text) → length (reverse s) ≡ length s
length-reverse [] = refl
length-reverse (c ∷ s) =
    ap length (reverse-cons c s)
    ∙ omega (arith, length-append (reverse s) (c ∷ []), length-reverse s)

length-trim_start-le : (s : Text) → length (trim_start s) ≤ length s
unfolding trim_start
length-trim_start-le [] = omega arith
length-trim_start-le (c ∷ s) = elim (Bool-cases (is_space c)) [
  | inl space ↦ rw space (omega (arith, length-trim_start-le s))
  | inr other ↦ rw other (omega arith)
]

trim_start_space : (c : ℕ) (s : Text) → is_space c ≡ true → trim_start (c ∷ s) ≡ trim_start s
unfolding trim_start
trim_start_space c s e = rw e refl

trim_start_other : (c : ℕ) (s : Text) → is_space c ≡ false → trim_start (c ∷ s) ≡ c ∷ s
unfolding trim_start
trim_start_other c s e = rw e refl

length-trim_end-le :
    (w : Text) (sp : ℕ) → is_space sp ≡ true → length (trim_end (w ++ sp ∷ [])) ≤ length w
unfolding trim_end
length-trim_end-le w sp e =
    rw (reverse-append w (sp ∷ []), trim_start_space sp (reverse w) e)
      (omega (
        arith,
        length-reverse (trim_start (reverse w)),
        length-trim_start-le (reverse w),
        length-reverse w,
      ))

trim_start_concat :
    (s : Text) (c : ℕ) → is_space c ≡ false → (v : Text) × (trim_start (s ++ c ∷ []) ≡ v ++ c ∷ [])
trim_start_concat [] c e = ([], trim_start_other c [] e)
trim_start_concat (d ∷ s) c e = elim (Bool-cases (is_space d)) [
  | inl space ↦
      let (v, e') = trim_start_concat s c e in (v, trim_start_space d (s ++ c ∷ []) space ∙ e')
  | inr other ↦ (d ∷ s, trim_start_other d (s ++ c ∷ []) other)
]

-- A text that begins with another unit than white space is not blank.
is_empty-trim : (c : ℕ) (s : Text) → is_space c ≡ false → is_empty (trim (c ∷ s)) ≡ false
unfolding trim trim_end
is_empty-trim c s e =
    let (v, e') = trim_start_concat (reverse s) c e in
    rw (trim_start_other c s e, reverse-cons c s, e', reverse-append v (c ∷ [])) refl

Rounds-first :
    {R : State → State → Type 0} {s t : State} → Rounds R s t → ((u : State) → ¬ R s u) → s ≡ t
Rounds-first (stop e) h = e
Rounds-first (more {t = u} m _ rounds) h = absurd (h u m)

not_space :
    (c : ℕ) (s : Text) (u v : State)
    → is_space c ≡ false
    → u.rest ≡ c ∷ s
    → ¬ Matches (unit is_space) u v
not_space c s u v e at_c (d, rest, at_d, space, _) =
    let same : d ≡ c = head-eq_of_cons-eq (sym at_d ∙ at_c) in
    let both : true ≡ false = sym (rw same at space) ∙ e in cc

text_between_self : (a b : State) → a ≡ b → text_between a b ≡ []
text_between_self a b e =
    let none_left : length a.rest - length b.rest ≡ 0 = rw e (omega arith) in rw none_left refl

-- `^\s*` takes nothing in front of another unit.
leading_spaces-nil : (c : ℕ) (s : Text) → is_space c ≡ false → leading_spaces (c ∷ s) ≡ []
unfolding leading_spaces first_match
leading_spaces-nil c s e = elim (Option-cases (search (seq at_start spaces) [] (c ∷ s))) [
  | inl missed ↦ rw missed refl
  | inr ((a, b), hit) ↦
      let f = search_sound (seq at_start spaces) [] (c ∷ s) a b hit in
      let at_first : a.rest ≡ c ∷ s = search-at_start spaces (c ∷ s) a b hit in
      let (u, (_, same), m) = f.matches in
      let stays : u ≡ b =
        Rounds-first m
          (λ v round. not_space c s u v e (ap (λ w. w.rest) (sym same) ∙ at_first) round) in
      rw hit (text_between_self a b (same ∙ stays))
]

shown_gap_shorter :
    (gap w : Text) (c sp : ℕ)
    → gap ≡ c ∷ (w ++ sp ∷ [])
    → is_space c ≡ false
    → is_space sp ≡ true
    → length (shown_gap gap) < length gap
unfolding shown_gap
shown_gap_shorter gap w c sp e first last =
    rw (e, is_empty-trim c (w ++ sp ∷ []) first, leading_spaces-nil c (w ++ sp ∷ []) first)
      (omega (arith, length-trim_end-le (c ∷ w) sp last, length-append w (sp ∷ [])))

bash_shown_hit :
    (code : Text) (s t : State)
    → search bash_pattern [] code ≡ some (s, t)
    → bash_shown code ≡ shown_gap (text_between (begin code) s) ++ (text_between s t ++ t.rest)
unfolding bash_shown
bash_shown_hit code s t hit = rw hit refl

hit_splits :
    (code : Text) (s t : State)
    → search bash_pattern [] code ≡ some (s, t)
    → code ≡ text_between (begin code) s ++ (text_between s t ++ t.rest)
hit_splits code s t hit =
    let f = search_sound bash_pattern [] code s t hit in
    text_between_splits (begin code) s
      (record { consumed = f.passes.consumed; splits = f.passes.splits; keeps = f.passes.keeps })
    ∙ ap (◌++◌ (text_between (begin code) s))
        (text_between_splits s t (Matches-Leads bash_pattern s t f.matches))

-- If the text before the first option, string, variable, operator or number of a shell line begins
-- with a unit that is not white space and ends in white space, as `helm list ` does before `-n`,
-- then what the tokens display is shorter than the line.
pub tokenize_bash_drops :
    (code w : Text) (c sp : ℕ) (s t : State)
    → search bash_pattern [] code ≡ some (s, t)
    → text_between (begin code) s ≡ c ∷ (w ++ sp ∷ [])
    → is_space c ≡ false
    → is_space sp ≡ true
    → (tokens : List Token) × (tokenize_bash code ≡ some tokens)
      × (length (text_of tokens) < length code)
tokenize_bash_drops code w c sp s t hit e first last =
    let shows = tokenize_bash-Shows code in
    let gap = text_between (begin code) s in
    let rest = text_between s t ++ t.rest in
    (
      shows.tokens,
      shows.given,
      omega (
        arith,
        ap length (shows.displays ∙ bash_shown_hit code s t hit),
        length-append (shown_gap gap) rest,
        ap length (hit_splits code s t hit),
        length-append gap rest,
        shown_gap_shorter gap w c sp e first last,
      ),
    )
