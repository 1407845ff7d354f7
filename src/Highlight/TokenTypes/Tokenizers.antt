-- ===== src/Highlight/TokenTypes/Tokenizers.antt =====
-- The types of the tokens that each tokenizer gives.
use mathlib.Core.Option.{some-injective}
use mathlib.Core.Path.{subst}
use kube_cell.Common.{
  suc, Bool, true, false, ◌&&◌, List, [], ◌∷◌, ◌++◌, Option, none, some, Text, ◌≡◌, refl, arith,
  length, not, is_empty, trim, trim_end, if◌then◌else◌,
}
use kube_cell.Highlight.Bash.{
  BashState, bash_pattern, bash_type, bash_push_plain, bash_step, leading_spaces, tokenize_bash,
}
use kube_cell.Highlight.Bash.Gap.{begin}
use kube_cell.Highlight.Go.{go_keywords, go_pattern, go_word, push_code, go_step, tokenize_go}
use kube_cell.Highlight.Json.{json_pattern, json_type, json_step, tokenize_json}
use kube_cell.Highlight.Patterns.{push_plain}
use kube_cell.Highlight.Types.{
  plain, key, string, command, keyword, punct, Token, token, yaml, bash, go, json,
}
use kube_cell.Highlight.Yaml.{
  yaml_key, yaml_item, yaml_pattern, yaml_type, yaml_value, yaml_item_head, yaml_head, yaml_values,
  tokenize_yaml,
}
use kube_cell.Regex.{first_match, exec_loop}
use kube_cell.Regex.Loop.{bind_some}
use kube_cell.Highlight.TokenTypes.Loops.{
  has_type, Typed, Typed-append, Typed-one, Typed-push_plain, Typed-push, exec_loop-keeps,
  loop-Typed,
}

yaml_type-has_type : (value : Text) → has_type yaml (yaml_type value) ≡ true
unfolding has_type yaml_type
yaml_type-has_type value = ground arith

json_type-has_type : (value : Text) → has_type json (json_type value) ≡ true
unfolding has_type json_type
json_type-has_type value = ground arith

bash_type-has_type : (value : Text) → has_type bash (bash_type value) ≡ true
unfolding has_type bash_type
bash_type-has_type value = ground arith

-- The types that a language has whatever is matched.
yaml_plain : has_type yaml plain ≡ true
unfolding has_type
yaml_plain = refl

json_plain : has_type json plain ≡ true
unfolding has_type
json_plain = refl

go_plain : has_type go plain ≡ true
unfolding has_type
go_plain = refl

go_keyword : has_type go keyword ≡ true
unfolding has_type
go_keyword = refl

go_string : has_type go string ≡ true
unfolding has_type
go_string = refl

yaml_value-Typed :
    (gap value : Text) (acc next : List Token)
    → yaml_value gap value acc ≡ some next
    → Typed (has_type yaml) acc
    → Typed (has_type yaml) next
unfolding yaml_value
yaml_value-Typed gap value acc next e h = subst (Typed (has_type yaml)) (some-injective _ _ e) (
    Typed-push (has_type yaml) gap value (yaml_type value) acc yaml_plain (yaml_type-has_type value)
      h)

json_step-Typed :
    (gap value : Text) (acc next : List Token)
    → json_step gap value acc ≡ some next
    → Typed (has_type json) acc
    → Typed (has_type json) next
unfolding json_step
json_step-Typed gap value acc next e h = subst (Typed (has_type json)) (some-injective _ _ e) (
    Typed-push (has_type json) gap value (json_type value) acc json_plain (json_type-has_type value)
      h)

pub tokenize_json-Typed :
    (code : Text) (tokens : List Token)
    → tokenize_json code ≡ some tokens
    → Typed (has_type json) tokens
unfolding tokenize_json
tokenize_json-Typed code tokens e =
    loop-Typed json_pattern json_step (has_type json) json_plain json_step-Typed (suc (length code))
      (begin code) [] tokens e refl

yaml_item_head-Typed :
    (code : Text) (m : Option (Text × List Text)) → Typed (has_type yaml) (yaml_item_head code m).0
unfolding yaml_item_head has_type
yaml_item_head-Typed code none = refl
yaml_item_head-Typed code (some (whole, [])) = refl
yaml_item_head-Typed code (some (whole, a ∷ [])) = refl
yaml_item_head-Typed code (some (whole, a ∷ b ∷ [])) = refl
yaml_item_head-Typed code (some (whole, a ∷ b ∷ c ∷ [])) =
    Typed-append (has_type yaml) (push_plain a []) _
      (Typed-push_plain (has_type yaml) a [] yaml_plain refl) refl
yaml_item_head-Typed code (some (whole, a ∷ b ∷ c ∷ d ∷ l)) = refl

yaml_head-Typed :
    (code : Text) (m : Option (Text × List Text)) → Typed (has_type yaml) (yaml_head code m).0
unfolding yaml_head has_type
yaml_head-Typed code none = yaml_item_head-Typed code (first_match yaml_item code)
yaml_head-Typed code (some (whole, [])) = yaml_item_head-Typed code (first_match yaml_item code)
yaml_head-Typed code (some (whole, a ∷ [])) = yaml_item_head-Typed code (first_match yaml_item code)
yaml_head-Typed code (some (whole, a ∷ b ∷ [])) =
    yaml_item_head-Typed code (first_match yaml_item code)
yaml_head-Typed code (some (whole, a ∷ b ∷ c ∷ [])) =
    yaml_item_head-Typed code (first_match yaml_item code)
yaml_head-Typed code (some (whole, a ∷ b ∷ c ∷ d ∷ [])) =
    Typed-push_plain (has_type yaml) d (push_plain a [] ++ token b key ∷ token c punct ∷ [])
      yaml_plain
      (Typed-append (has_type yaml) (push_plain a []) _
        (Typed-push_plain (has_type yaml) a [] yaml_plain refl) refl)
yaml_head-Typed code (some (whole, a ∷ b ∷ c ∷ d ∷ f ∷ l)) =
    yaml_item_head-Typed code (first_match yaml_item code)

yaml_values-Typed :
    (head : List Token × Text) (tokens : List Token)
    → yaml_values head ≡ some tokens
    → Typed (has_type yaml) head.0
    → Typed (has_type yaml) tokens
unfolding yaml_values
yaml_values-Typed (started, rest) tokens e h =
    loop-Typed yaml_pattern yaml_value (has_type yaml) yaml_plain yaml_value-Typed
      (suc (length rest)) (begin rest) started tokens e h

pub tokenize_yaml-Typed :
    (code : Text) (tokens : List Token)
    → tokenize_yaml code ≡ some tokens
    → Typed (has_type yaml) tokens
unfolding tokenize_yaml
tokenize_yaml-Typed code tokens e =
    yaml_values-Typed (yaml_head code (first_match yaml_key code)) tokens e
      (yaml_head-Typed code (first_match yaml_key code))

go_word-Typed :
    (gap value : Text) (acc next : List Token)
    → go_word gap value acc ≡ some next
    → Typed (has_type go) acc
    → Typed (has_type go) next
unfolding go_word
go_word-Typed gap value acc next e h =
    subst (Typed (has_type go)) (some-injective _ _ e)
      (Typed-push (has_type go) gap value keyword acc go_plain go_keyword h)

push_code-Typed :
    (s : Text) (acc tokens : List Token)
    → push_code s acc ≡ some tokens
    → Typed (has_type go) acc
    → Typed (has_type go) tokens
unfolding push_code
push_code-Typed [] acc tokens e h = subst (Typed (has_type go)) (some-injective _ _ e) h
push_code-Typed (c ∷ s) acc tokens e h =
    loop-Typed go_keywords go_word (has_type go) go_plain go_word-Typed (suc (length (c ∷ s)))
      (begin (c ∷ s)) acc tokens e h

go_step-Typed :
    (gap value : Text) (acc next : List Token)
    → go_step gap value acc ≡ some next
    → Typed (has_type go) acc
    → Typed (has_type go) next
unfolding go_step
go_step-Typed gap value acc next e h =
    let (out, made, e') =
      bind_some (push_code gap acc) (λ ts. some (ts ++ token value string ∷ [])) e in
    subst (Typed (has_type go)) (some-injective _ _ e') (
      Typed-append (has_type go) out _ (push_code-Typed gap acc out made h)
        (Typed-one (has_type go) value string go_string))

pub tokenize_go-Typed :
    (code : Text) (tokens : List Token)
    → tokenize_go code ≡ some tokens
    → Typed (has_type go) tokens
unfolding tokenize_go
tokenize_go-Typed code tokens e =
    let ((out, last), made, e') =
      bind_some (exec_loop go_pattern go_step (suc (length code)) (begin code) []) _ e in
    push_code-Typed last.rest out tokens e' (
      exec_loop-keeps go_pattern go_step (Typed (has_type go)) go_step-Typed (suc (length code))
        (begin code) [] out last made refl)

abbrev TypedState : BashState → Type 0
TypedState st = Typed (has_type bash) st.tokens

either_state :
    (b : Bool) (x y : BashState) → TypedState x → TypedState y → TypedState (if b then x else y)
either_state true x y h k = h
either_state false x y h k = k

bash_push_plain-Typed :
    (s : Text) (st : BashState) → TypedState st → TypedState (bash_push_plain s st)
unfolding bash_push_plain has_type
bash_push_plain-Typed [] st h = h
bash_push_plain-Typed (c ∷ s) st h =
    either_state (st.first && not (is_empty (trim (c ∷ s))))
      (record {
        tokens =
            push_plain (leading_spaces (c ∷ s)) st.tokens ++ token (trim_end (c ∷ s)) command ∷ [];
        first = false;
      })
      (record st { tokens = st.tokens ++ token (c ∷ s) plain ∷ [] })
      (Typed-append (has_type bash) (push_plain (leading_spaces (c ∷ s)) st.tokens)
        (token (trim_end (c ∷ s)) command ∷ [])
        (Typed-push_plain (has_type bash) (leading_spaces (c ∷ s)) st.tokens refl h) refl)
      (Typed-append (has_type bash) st.tokens (token (c ∷ s) plain ∷ []) h refl)

bash_step-Typed :
    (gap value : Text) (acc next : BashState)
    → bash_step gap value acc ≡ some next
    → TypedState acc
    → TypedState next
unfolding bash_step
bash_step-Typed gap value acc next e h = subst TypedState (some-injective _ _ e) (
    Typed-append (has_type bash) (bash_push_plain gap acc).tokens _
      (bash_push_plain-Typed gap acc h)
      (Typed-one (has_type bash) value (bash_type value) (bash_type-has_type value)))

pub tokenize_bash-Typed :
    (code : Text) (tokens : List Token)
    → tokenize_bash code ≡ some tokens
    → Typed (has_type bash) tokens
unfolding tokenize_bash
tokenize_bash-Typed code tokens e =
    let started : BashState = record { tokens = []; first = true } in
    let ((out, last), made, e') =
      bind_some (exec_loop bash_pattern bash_step (suc (length code)) (begin code) started) _ e in
    subst (Typed (has_type bash)) (some-injective _ _ e') (
      bash_push_plain-Typed last.rest out (
        exec_loop-keeps bash_pattern bash_step TypedState bash_step-Typed (suc (length code))
          (begin code) started out last made refl))
