-- ===== src/Highlight/Json/Strings.antt =====
-- JSON string literals as the pattern of `tokenizeJson` reads them.
use kube_cell.Common.{
  ℕ, ◌<◌, Bool, true, false, [], ◌∷◌, ◌++◌, ◌≡◌, ◌≢◌, refl, sym, ap, ◌∙◌, ◌⊎◌, inl, inr, arith,
  Text, length, length-append, ◌==◌, if◌then◌else◌, Bool-cases,
}
use mathlib.Core.List.{head-eq_of_cons-eq, tail-eq_of_cons-eq}
use kube_cell.Highlight.Json.{string_body, string_literal, string_key}
use kube_cell.Highlight.Patterns.{spaces}
use kube_cell.Regex.{seq, char, State, test}
use kube_cell.Regex.Consumed.{Matches-min_width, search_sound, test-true}
use kube_cell.Regex.Matching.{stop, more, Matches}

-- Units other than a quote and a backslash, and backslashes with the unit that each escapes.
pub data Body : Text → Type 0 where
  done : {w : Text} → w ≡ [] → Body w
  plain_unit : {w v : Text} {c : ℕ} → c ≢ b'"' → c ≢ b'\\' → Body v → w ≡ c ∷ v → Body w
  escaped : {w v : Text} {d : ℕ} → Body v → w ≡ b'\\' ∷ d ∷ v → Body w

-- What stands behind the first quote that no backslash escapes.
after_quote : Bool → Text → Text
after_quote skip [] = []
after_quote true (c ∷ s) = after_quote false s
after_quote false (c ∷ s) = let later = after_quote (c == b'\\') s in if c == b'"' then s else later

after_quote-Body : {v : Text} (x : Text) → Body v → after_quote false (v ++ b'"' ∷ x) ≡ x
unfolding after_quote
after_quote-Body x (done e) = rw e refl
after_quote-Body x (plain_unit {v} {c} n m b e) = rw e (ground (arith, after_quote-Body x b))
after_quote-Body x (escaped {v} {d} b e) = rw e (after_quote-Body x b)

-- A body ends at one quote only.
Body-unique : {v w : Text} (x y : Text) → Body v → Body w → v ++ b'"' ∷ x ≡ w ++ b'"' ∷ y → x ≡ y
Body-unique x y a b h = sym (after_quote-Body x a) ∙ ap (after_quote false) h ∙ after_quote-Body y b

cons_split :
    (d : ℕ) (u gap z : Text)
    → d ∷ u ≡ gap ++ b'"' ∷ z
    → ((gap ≡ []) × (d ≡ b'"') × (u ≡ z)) ⊎ ((g : Text) × (gap ≡ d ∷ g) × (u ≡ g ++ b'"' ∷ z))
cons_split d u [] z h = inl (refl, head-eq_of_cons-eq h, tail-eq_of_cons-eq h)
cons_split d u (c ∷ g) z h =
    inr (g, ap (λ e. e ∷ g) (sym (head-eq_of_cons-eq h)), tail-eq_of_cons-eq h)

-- No quote inside a literal begins a shorter one that something follows.
no_inner_literal :
    {v w : Text} (gap : Text) (c : ℕ) (rest : Text)
    → Body v
    → Body w
    → v ++ b'"' ∷ [] ≡ gap ++ b'"' ∷ (w ++ b'"' ∷ c ∷ rest)
    → ⊥
no_inner_literal {w} gap c rest (done e) b h =
    let h' = rw e at h in
    omega (
      arith,
      ap length h',
      length-append gap (b'"' ∷ (w ++ b'"' ∷ c ∷ rest)),
      length-append w (b'"' ∷ c ∷ rest),
    )
no_inner_literal gap c rest (plain_unit {v} {c = d} n m a e) b h =
    elim (cons_split d _ gap _ (rw e at h)) [
      | inl (_, quote, _) ↦ n quote
      | inr (g, _, h') ↦ no_inner_literal g c rest a b h'
    ]
no_inner_literal gap c rest (escaped {v} {d} a e) b h =
    elim (cons_split b'\\' _ gap _ (rw e at h)) [
      | inl (_, quote, _) ↦ omega arith
      | inr (g, _, h') ↦ elim (cons_split d _ g _ h') [
        | inl (_, _, h'') ↦ let bad = Body-unique [] (c ∷ rest) a b h'' in cc
        | inr (g', _, h'') ↦ no_inner_literal g' c rest a b h''
      ]
    ]

-- What the repetition of the pattern consumes is a body.
Rounds-Body : {s t : State} → Matches string_body s t → (v : Text) × (s.rest ≡ v ++ t.rest) × Body v
Rounds-Body (stop e) = ([], ap (λ u. u.rest) e, done refl)
Rounds-Body (more {t = u} (inl (c, rest, at, other, e)) _ rounds) =
    let (v, splits, b) = Rounds-Body rounds in
    (
      c ∷ v,
      at ∙ ap (◌∷◌ c) (sym (ap (λ w. w.rest) e) ∙ splits),
      plain_unit (ground arith) (ground arith) b refl,
    )
Rounds-Body (more {t = u} (inr (m, (c, rest, at, slash, e), (d, rest', at', _, e'))) _ rounds) =
    let (v, splits, b) = Rounds-Body rounds in
    let backslash : c ≡ b'\\' = ground arith in
    (
      b'\\' ∷ d ∷ v,
      at
          ∙ ap (λ k. k ∷ rest) backslash
          ∙ ap (◌∷◌ b'\\')
              (sym (ap (λ w. w.rest) e) ∙ at' ∙ ap (◌∷◌ d) (sym (ap (λ w. w.rest) e') ∙ splits)),
      escaped b refl,
    )

-- A quoted body, with what stands behind it.
pub record Literal (at : Text) (behind : Text) : Type 0 where
  pub body : Text
  pub is_body : Body body
  pub splits : at ≡ b'"' ∷ (body ++ b'"' ∷ behind)

char_splits : (c : ℕ) (s t : State) → Matches (char c) s t → s.rest ≡ c ∷ t.rest
char_splits c s t (d, rest, at, same, e) =
    let same' : c ≡ d = ground arith in
    at ∙ ap (λ k. k ∷ rest) (sym same') ∙ ap (◌∷◌ c) (sym (ap (λ w. w.rest) e))

quoted :
    (s u v t : State)
    → Matches (char b'"') s u
    → Matches string_body u v
    → Matches (char b'"') v t
    → Literal s.rest t.rest
quoted s u v t m body m' =
    let (b, splits, is_body) = Rounds-Body body in
    record {
      body = b;
      is_body = is_body;
      splits =
          char_splits b'"' s u m ∙ ap (◌∷◌ b'"') (splits ∙ ap (◌++◌ b) (char_splits b'"' v t m'));
    }

pub string_literal-Literal : (s t : State) → Matches string_literal s t → Literal s.rest t.rest
string_literal-Literal s t (u, m, (v, body, m')) = quoted s u v t m body m'

pos_cons : (s : Text) → 0 < length s → (c : ℕ) × (rest : Text) × (s ≡ c ∷ rest)
pos_cons [] h = absurd (omega arith)
pos_cons (c ∷ rest) h = (c, rest, refl)

-- A key has something behind it.
pub string_key-Literal :
    (s t : State)
    → Matches string_key s t
    → Literal s.rest t.rest × ((c : ℕ) × (rest : Text) × (t.rest ≡ c ∷ rest))
string_key-Literal s t (u, m, (v, body, (w, m', ((x, colon), same)))) = (
  rw (← same) (quoted s u v w m body m'),
  rw (← same)
      (pos_cons w.rest (omega (arith, Matches-min_width (seq spaces (char b':')) w x colon))),
)

inner : (value : Text) → Literal value [] → test string_key value ≡ true → ⊥
inner value l h =
    let (s, t, hit) = test-true string_key value h in
    let f = search_sound string_key [] value s t hit in
    let (k, (c, rest, behind)) = string_key-Literal s t f.matches in
    let gap = f.passes.consumed in
    let e =
      sym l.splits
      ∙ f.passes.splits
      ∙ ap (◌++◌ gap) (k.splits ∙ ap (λ z. b'"' ∷ (k.body ++ b'"' ∷ z)) behind) in
    elim (cons_split b'"' (l.body ++ b'"' ∷ []) gap (k.body ++ b'"' ∷ c ∷ rest) e) [
      | inl (_, _, same) ↦ let bad = Body-unique [] (c ∷ rest) l.is_body k.is_body same in cc
      | inr (g, _, same) ↦ no_inner_literal g c rest l.is_body k.is_body same
    ]

-- `/"(?:[^"\\]|\\.)*"(?=\s*:)/` never matches in a literal that nothing follows.
pub test-string_key : (value : Text) → Literal value [] → test string_key value ≡ false
test-string_key value l = elim (Bool-cases (test string_key value)) [
  | inl passes ↦ absurd (inner value l passes)
  | inr fails ↦ fails
]
