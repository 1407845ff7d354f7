-- ===== src/Highlight/TokenTypes/Loops.antt =====
-- The token types of a language, and loops that keep to them.
use mathlib.Core.Option.{some-injective}
use mathlib.Core.Path.{subst}
use kube_cell.Common.{
  ℕ, Bool, true, false, List, [], ◌∷◌, ◌++◌, Option, some, Text, ◌≡◌, arith, all, ◌>>=◌,
}
use kube_cell.Highlight.Patterns.{push_plain}
use kube_cell.Highlight.Types.{
  TokenType, plain, comment, key, string, flag, command, keyword, Token, token, Language, yaml,
  bash, shell, go, json,
}
use kube_cell.Regex.{Regex, State, text_between, exec_loop}
use kube_cell.Regex.Loop.{bind_some, exec_loop_inv}

abbrev pub shell_types : TokenType → Bool
shell_types key = false
shell_types keyword = false
shell_types _ = true

-- The types of tokens that a language has.
unfoldable pub has_type : Language → TokenType → Bool
has_type Language.text plain = true
has_type Language.text _ = false
has_type go plain = true
has_type go comment = true
has_type go keyword = true
has_type go string = true
has_type go _ = false
has_type yaml flag = false
has_type yaml command = false
has_type yaml _ = true
has_type json flag = false
has_type json command = false
has_type json _ = true
has_type bash t = shell_types t
has_type shell t = shell_types t

-- All tokens have types that pass the test.
abbrev pub Typed : (TokenType → Bool) → List Token → Type 0
Typed test tokens = all (λ (t : Token). test t.type) tokens ≡ true

pub Typed-append :
    (test : TokenType → Bool) (ts us : List Token)
    → Typed test ts
    → Typed test us
    → Typed test (ts ++ us)
Typed-append test [] us h k = k
Typed-append test (t ∷ ts) us h k = ground (arith, Typed-append test ts us)

pub Typed-one :
    (test : TokenType → Bool) (s : Text) (t : TokenType)
    → test t ≡ true
    → Typed test (token s t ∷ [])
Typed-one test s t h = ground arith

pub Typed-push_plain :
    (test : TokenType → Bool) (s : Text) (ts : List Token)
    → test plain ≡ true
    → Typed test ts
    → Typed test (push_plain s ts)
Typed-push_plain test [] ts h k = k
Typed-push_plain test (c ∷ s) ts h k = Typed-append test ts _ k (Typed-one test (c ∷ s) plain h)

-- The bodies of the loops that push the gap and then the match.
pub Typed-push :
    (test : TokenType → Bool) (gap value : Text) (t : TokenType) (ts : List Token)
    → test plain ≡ true
    → test t ≡ true
    → Typed test ts
    → Typed test (push_plain gap ts ++ token value t ∷ [])
Typed-push test gap value t ts h k l =
    Typed-append test (push_plain gap ts) _ (Typed-push_plain test gap ts h l)
      (Typed-one test value t k)

-- A loop whose body keeps a property keeps it.
module _ {ℓ} {S : Type ℓ} (r : Regex) (body : Text → Text → S → Option S) (P : S → Type 0)
    (keeps : (gap value : Text) (acc next : S)
      → body gap value acc ≡ some next
      → P acc
      → P next) where
  pub exec_loop-keeps :
      (fuel : ℕ) (at : State) (acc out : S) (last : State)
      → exec_loop r body fuel at acc ≡ some (out, last)
      → P acc
      → P out
  exec_loop-keeps fuel at acc out last e h =
      let (w, _, kept) =
        exec_loop_inv r body (λ s _. P s)
          (λ ts done gap s t next m made i. keeps gap (text_between s t) ts next made i) fuel at acc
          [] out last e h in
      kept

-- A loop over tokens, and the rest behind the last match.
module _ (r : Regex) (body : Text → Text → List Token → Option (List Token))
    (test : TokenType → Bool) (is_plain : test plain ≡ true)
    (keeps : (gap value : Text) (acc next : List Token)
      → body gap value acc ≡ some next
      → Typed test acc
      → Typed test next) where
  pub loop-Typed :
      (fuel : ℕ) (at : State) (acc tokens : List Token)
      → (exec_loop r body fuel at acc
          >>= (λ (x : List Token × State). some (push_plain x.1.rest x.0)))
        ≡ some tokens
      → Typed test acc
      → Typed test tokens
  loop-Typed fuel at acc tokens h k =
      let ((out, last), e, e') = bind_some (exec_loop r body fuel at acc) _ h in
      subst (Typed test) (some-injective _ _ e') (
        Typed-push_plain test last.rest out is_plain
          (exec_loop-keeps r body (Typed test) keeps fuel at acc out last e k))
