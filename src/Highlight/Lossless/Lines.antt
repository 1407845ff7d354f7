-- ===== src/Highlight/Lossless/Lines.antt =====
-- `highlightLine` outside the shell languages: no unit of the line is dropped, repeated or moved.
use kube_cell.Common.{
  ℕ, List, [], ◌∷◌, ◌++◌, ◌≡◌, refl, ap, ◌∙◌, Option, none, some, Text, take, drop, append-nil,
  take-append-drop, ◌>>=◌,
}
use kube_cell.Highlight.Types.{plain, comment, Token, token, Language, yaml, bash, shell, go, json}
use kube_cell.Highlight.Comments.{find_comment_start, find_go_comment_start}
use kube_cell.Highlight.Yaml.{yaml_key, yaml_head, tokenize_yaml}
use kube_cell.Highlight.Go.{tokenize_go}
use kube_cell.Highlight.Line.{tokenize_code, with_comment, highlight_line}
use kube_cell.Highlight.Lossless.Head.{yaml_head-HeadShows}
use kube_cell.Highlight.Lossless.Loops.{text_of-push, Shows}
use kube_cell.Highlight.Lossless.Values.{yaml_values-Shows, tokenize_json-Shows, tokenize_go-Shows}
use kube_cell.Regex.{first_match}

pub tokenize_yaml-Shows : (code : Text) → Shows (tokenize_yaml code) code
unfolding tokenize_yaml
tokenize_yaml-Shows code =
    let head = yaml_head code (first_match yaml_key code) in
    let h = yaml_values-Shows head.0 head.1 in
    record {
      tokens = h.tokens;
      given = h.given;
      displays = h.displays ∙ (yaml_head-HeadShows code).whole;
    }

-- What is displayed of a line, if `shown` is displayed of the code before its comment.
abbrev pub shown_line : (Text → Text) → Text → Option ℕ → Text
shown_line shown line none = shown line
shown_line shown line (some i) = shown (take i line) ++ drop i line

-- Whatever place the comment is said to begin at.
pub with_comment-Shows :
    (tokenize : Text → Option (List Token)) (shown : Text → Text)
    → ((code : Text) → Shows (tokenize code) (shown code))
    → (line : Text) (start : Option ℕ)
    → Shows (with_comment tokenize line start) (shown_line shown line start)
with_comment-Shows tokenize shown h line none = h line
with_comment-Shows tokenize shown h line (some i) =
    let code = h (take i line) in
    record {
      tokens = code.tokens ++ token (drop i line) comment ∷ [];
      given = rw (code.given, ◌>>=◌) refl;
      displays =
          text_of-push code.tokens (drop i line) comment ∙ ap (λ w. w ++ drop i line) code.displays;
    }

shown_line_whole : (line : Text) (start : Option ℕ) → shown_line (λ code. code) line start ≡ line
shown_line_whole line none = refl
shown_line_whole line (some i) = take-append-drop i line

with_comment_lossless :
    (tokenize : Text → Option (List Token))
    → ((code : Text) → Shows (tokenize code) code)
    → (line : Text) (start : Option ℕ) → Shows (with_comment tokenize line start) line
with_comment_lossless tokenize h line start =
    rw shown_line_whole at (with_comment-Shows tokenize (λ code. code) h line start)

-- The languages whose tokenizer is not `tokenizeBash`.
abbrev pub IsNotShell : Language → Type 0
IsNotShell bash = ⊥
IsNotShell shell = ⊥
IsNotShell _ = Unit

-- Outside bash and shell, highlighting a line ends, and the texts of its tokens, one after the
-- other, are the line.
pub highlight_line-Shows :
    (line : Text) (language : Language)
    → IsNotShell language
    → Shows (highlight_line line language) line
unfolding highlight_line tokenize_code
highlight_line-Shows line Language.text h = record {
  tokens = token line plain ∷ [];
  given = refl;
  displays = append-nil line;
}
highlight_line-Shows line go h =
    with_comment_lossless tokenize_go tokenize_go-Shows line (find_go_comment_start line)
highlight_line-Shows line yaml h =
    with_comment_lossless (tokenize_code yaml) tokenize_yaml-Shows line (find_comment_start line)
highlight_line-Shows line json h =
    with_comment_lossless (tokenize_code json) tokenize_json-Shows line (find_comment_start line)
highlight_line-Shows line bash h = elim h [ ]
highlight_line-Shows line shell h = elim h [ ]
