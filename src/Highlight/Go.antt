-- ===== src/Highlight/Go.antt =====
-- website/lib/highlight.ts: `tokenizeGo`.
use kube_cell.Common.{suc, List, [], ◌∷◌, ◌++◌, Option, some, Text, String, units, length, ◌>>=◌}
use kube_cell.Highlight.Types.{string, keyword, Token, token}
use kube_cell.Highlight.Patterns.{delimited, push_plain}
use kube_cell.Regex.{Regex, seq, alt, boundary, word, exec_loop}

-- `a|b|…` of words, the first one given apart.
abbrev words : String → List String → Regex
words s [] = word (units s)
words s (t ∷ ts) = alt (word (units s)) (words t ts)

-- `GO_KEYWORDS`, between its two `\b`.
abbrev pub go_keywords : Regex
go_keywords = seq boundary (
    seq
      (words "package" (
        "import" ∷ "func" ∷ "return" ∷ "if" ∷ "else" ∷ "for" ∷ "range" ∷ "var" ∷ "const" ∷ "type"
        ∷ "struct" ∷ "interface" ∷ "map" ∷ "chan" ∷ "go" ∷ "defer" ∷ "select" ∷ "case" ∷ "switch"
        ∷ "break" ∷ "continue" ∷ "nil" ∷ "true" ∷ "false" ∷ []))
      boundary)

-- `/("[^"]*"|`[^`]*`|'[^']*')/g`
abbrev pub go_pattern : Regex
go_pattern = alt (delimited b'"' b'"') (alt (delimited b'`' b'`') (delimited b'\'' b'\''))

-- The body of the loop in `pushCode`.
unfoldable pub go_word : Text → Text → List Token → Option (List Token)
go_word gap value tokens = some (push_plain gap tokens ++ token value keyword ∷ [])

-- `pushCode`
unfoldable pub push_code : Text → List Token → Option (List Token)
unfolding exec_loop go_word
push_code [] tokens = some tokens
push_code (c ∷ s) tokens = do
  (out, last) ←
      exec_loop go_keywords go_word (suc (length (c ∷ s)))
        (record { seen = []; rest = c ∷ s; groups = [] }) tokens
  some (push_plain last.rest out)

-- The body of the loop over the strings of the line.
unfoldable pub go_step : Text → Text → List Token → Option (List Token)
unfolding push_code
go_step gap value tokens = do out ← push_code gap tokens; some (out ++ token value string ∷ [])

unfoldable pub tokenize_go : Text → Option (List Token)
unfolding exec_loop go_step push_code
tokenize_go code = do
  (out, last) ←
      exec_loop go_pattern go_step (suc (length code))
        (record { seen = []; rest = code; groups = [] }) []
  push_code last.rest out
