-- ===== src/Highlight/Tests.antt =====
-- Runs of the highlighter on lines that are easy to follow.
use kube_cell.Common.{List, [], ◌∷◌, Option, some, String, units, map, ◌≡◌, refl}
use kube_cell.Highlight.Types.{
  TokenType, plain, comment, key, string, number, flag, command, keyword, punct, Token, token, yaml,
  bash, go, json,
}
use kube_cell.Highlight.Line.{highlight_line}

abbrev row : List (String × TokenType) → Option (List Token)
row ps = some (map (λ p. token (units p.0) p.1) ps)

yaml_line :
    highlight_line (units "  cpu: \"4\" 8Gi # cap") yaml
    ≡ row (
        ("  ", plain)
        ∷ ("cpu", key)
        ∷ (":", punct)
        ∷ (" ", plain)
        ∷ ("\"4\"", string)
        ∷ (" ", plain)
        ∷ ("8Gi", number)
        ∷ (" ", plain)
        ∷ ("# cap", comment)
        ∷ [])
unfolding highlight_line
yaml_line = refl

yaml_items :
    highlight_line (units "- true, {a: 1}") yaml
    ≡ row
        (("-", punct) ∷ (" ", plain) ∷ ("true", keyword) ∷ (", ", plain) ∷ ("{a: 1}", string) ∷ [])
unfolding highlight_line
yaml_items = refl

bash_line :
    highlight_line (units "helm list -n ns | wc") bash
    ≡ row (
        ("helm list", command)
        ∷ ("-n", flag)
        ∷ (" ns ", plain)
        ∷ ("|", punct)
        ∷ (" wc", plain)
        ∷ [])
unfolding highlight_line
bash_line = refl

go_line :
    highlight_line (units "if x == \"a//b\" { // why") go
    ≡ row (
        ("if", keyword)
        ∷ (" x == ", plain)
        ∷ ("\"a//b\"", string)
        ∷ (" { ", plain)
        ∷ ("// why", comment)
        ∷ [])
unfolding highlight_line
go_line = refl

json_line :
    highlight_line (units "{\"a\": -1.5}") json
    ≡ row (
        ("{", punct)
        ∷ ("\"a\"", string)
        ∷ (":", punct)
        ∷ (" ", plain)
        ∷ ("-1.5", number)
        ∷ ("}", punct)
        ∷ [])
unfolding highlight_line
json_line = refl
