-- ===== src/Highlight/Line.antt =====
-- website/lib/highlight.ts: `highlightLine`.
use kube_cell.Common.{ℕ, List, [], ◌∷◌, ◌++◌, Option, none, some, Text, take, drop, ◌>>=◌}
use kube_cell.Highlight.Types.{plain, comment, Token, token, Language, yaml, go, json}
use kube_cell.Highlight.Comments.{find_comment_start, find_go_comment_start}
use kube_cell.Highlight.Yaml.{tokenize_yaml}
use kube_cell.Highlight.Bash.{tokenize_bash}
use kube_cell.Highlight.Go.{tokenize_go}
use kube_cell.Highlight.Json.{tokenize_json}

-- `language === "yaml" ? tokenizeYaml(code) : language === "json" ? … : tokenizeBash(code)`
unfoldable pub tokenize_code : Language → Text → Option (List Token)
unfolding tokenize_yaml tokenize_json tokenize_bash
tokenize_code yaml code = tokenize_yaml code
tokenize_code json code = tokenize_json code
tokenize_code _ code = tokenize_bash code

-- The code before the comment, by the tokenizer, and the comment as one token.
abbrev pub with_comment : (Text → Option (List Token)) → Text → Option ℕ → Option (List Token)
with_comment tokenize line none = tokenize line
with_comment tokenize line (some i) = do
  tokens ← tokenize (take i line)
  some (tokens ++ token (drop i line) comment ∷ [])

unfoldable pub highlight_line : Text → Language → Option (List Token)
unfolding find_comment_start find_go_comment_start tokenize_code tokenize_go
highlight_line line Language.text = some (token line plain ∷ [])
highlight_line line go = with_comment tokenize_go line (find_go_comment_start line)
highlight_line line language = with_comment (tokenize_code language) line (find_comment_start line)
