-- ===== src/Highlight/TokenTypes.antt =====
-- Which types of tokens the highlighter gives in which language.
pub mod Loops
pub mod Tokenizers
use mathlib.Core.Option.{some-injective}
use mathlib.Core.Path.{subst}
use kube_cell.Common.{
  ℕ, suc, Bool, true, false, ◌&&◌, List, [], ◌∷◌, ◌++◌, Option, none, some, Text, ◌≡◌, refl, sym,
  ap, ◌∙◌, arith, all, all-append, length, not, is_empty, trim, trim_end, take, drop, ◌>>=◌,
  if◌then◌else◌,
}
use kube_cell.Highlight.Bash.{
  BashState, bash_pattern, bash_type, bash_push_plain, bash_step, leading_spaces, tokenize_bash,
}
use kube_cell.Highlight.Bash.Gap.{begin}
use kube_cell.Highlight.Comments.{find_comment_start, find_go_comment_start}
use kube_cell.Highlight.Go.{go_keywords, go_pattern, go_word, push_code, go_step, tokenize_go}
use kube_cell.Highlight.Json.{json_pattern, json_type, json_step, tokenize_json}
use kube_cell.Highlight.Line.{highlight_line, tokenize_code, with_comment}
use kube_cell.Highlight.Patterns.{push_plain}
use kube_cell.Highlight.Types.{
  TokenType, plain, comment, key, string, number, flag, command, keyword, punct, Token, token,
  Language, yaml, bash, shell, go, json,
}
use kube_cell.Highlight.Yaml.{
  yaml_key, yaml_item, yaml_pattern, yaml_type, yaml_value, yaml_item_head, yaml_head, yaml_values,
  tokenize_yaml,
}
use kube_cell.Regex.{Regex, State, text_between, first_match, exec_loop}
use kube_cell.Regex.Loop.{bind_some, exec_loop_inv}
use kube_cell.Highlight.TokenTypes.Loops.{
  has_type, Typed, Typed-append, Typed-one, Typed-push_plain, Typed-push, exec_loop-keeps,
  loop-Typed,
}
use kube_cell.Highlight.TokenTypes.Tokenizers.{
  tokenize_yaml-Typed, tokenize_json-Typed, tokenize_go-Typed, tokenize_bash-Typed,
}

with_comment-Typed :
    (test : TokenType → Bool) (tokenize : Text → Option (List Token))
    → test comment ≡ true
    → ((code : Text) (tokens : List Token) → tokenize code ≡ some tokens → Typed test tokens)
    → (line : Text) (start : Option ℕ) (tokens : List Token)
    → with_comment tokenize line start ≡ some tokens
    → Typed test tokens
with_comment-Typed test tokenize c h line none tokens e = h line tokens e
with_comment-Typed test tokenize c h line (some i) tokens e =
    let last = token (drop i line) comment in
    let (ts, made, e') = bind_some (tokenize (take i line)) (λ ts. some (ts ++ last ∷ [])) e in
    subst (Typed test) (some-injective _ _ e')
      (Typed-append test ts _ (h (take i line) ts made) (Typed-one test (drop i line) comment c))

-- Each token of a line has a type that its language has: commands and flags are tokens of bash and
-- shell alone, which have no keys and keywords; Go has keywords, strings, comments and plain text,
-- and text is plain.
pub highlight_line-has_type :
    (line : Text) (language : Language) (tokens : List Token)
    → highlight_line line language ≡ some tokens
    → all (λ (t : Token). has_type language t.type) tokens ≡ true
unfolding highlight_line tokenize_code has_type
highlight_line-has_type line Language.text tokens e =
    subst (Typed (has_type Language.text)) (some-injective _ _ e) refl
highlight_line-has_type line go tokens e =
    with_comment-Typed (has_type go) tokenize_go refl tokenize_go-Typed line
      (find_go_comment_start line) tokens e
highlight_line-has_type line yaml tokens e =
    with_comment-Typed (has_type yaml) tokenize_yaml refl tokenize_yaml-Typed line
      (find_comment_start line) tokens e
highlight_line-has_type line json tokens e =
    with_comment-Typed (has_type json) tokenize_json refl tokenize_json-Typed line
      (find_comment_start line) tokens e
highlight_line-has_type line bash tokens e =
    with_comment-Typed (has_type bash) tokenize_bash refl tokenize_bash-Typed line
      (find_comment_start line) tokens e
highlight_line-has_type line shell tokens e =
    with_comment-Typed (has_type shell) tokenize_bash refl tokenize_bash-Typed line
      (find_comment_start line) tokens e
