-- ===== src/Highlight/JsonKeys.antt =====
-- The highlighter never marks a JSON key as a key.
use kube_cell.Common.{
  ℕ, suc, true, List, [], ◌∷◌, ◌++◌, ◌≡◌, ◌≢◌, refl, sym, ap, ◌∙◌, inl, inr, Option, some, arith,
  Text, units, starts_with, length, All, All-append, append_assoc, none, take, drop,
}
use mathlib.Core.List.{head-eq_of_cons-eq}
use mathlib.Core.Option.{some-injective}
use mathlib.Core.Path.{subst}
use kube_cell.Highlight.Types.{key, comment, Token, token, json}
use kube_cell.Highlight.Patterns.{push_plain}
use kube_cell.Highlight.Json.{json_pattern, string_key, json_type, json_step, tokenize_json}
use kube_cell.Highlight.Comments.{find_comment_start}
use kube_cell.Highlight.Line.{tokenize_code, with_comment, highlight_line}
use kube_cell.Highlight.Json.Strings.{
  Literal, string_literal-Literal, string_key-Literal, test-string_key,
}
use kube_cell.Regex.{State, text_between, test, exec_loop}
use kube_cell.Regex.Consumed.{Matches-Leads, text_between_splits, text_between_eq}
use kube_cell.Regex.Loop.{bind_some, exec_loop_inv}
use kube_cell.Regex.Matching.{Matches}

json_type_key :
    (value : Text)
    → json_type value ≡ key
    → (starts_with value (units "\"") ≡ true) × (test string_key value ≡ true)
unfolding json_type
json_type_key value h = ground arith

quote_first :
    (value rest : Text)
    → starts_with value (units "\"") ≡ true
    → (v : Text) × (value ++ rest ≡ b'"' ∷ v)
quote_first [] rest h = cc
quote_first (c ∷ v) rest h =
    let same : c ≡ b'"' = ground arith in (v ++ rest, ap (λ k. k ∷ (v ++ rest)) same)

same_unit : {c d : ℕ} {v rest : Text} (at e : Text) → at ≡ e → at ≡ c ∷ rest → e ≡ d ∷ v → c ≡ d
same_unit at e same p q = head-eq_of_cons-eq (sym p ∙ same ∙ q)

-- A match that begins with a quote is a string literal: no other alternative begins so.
quote_literal :
    (s t : State) (v : Text) → Matches json_pattern s t → s.rest ≡ b'"' ∷ v → Literal s.rest t.rest
quote_literal s t v (inl m) e = (string_key-Literal s t m).0
quote_literal s t v (inr (inl m)) e = string_literal-Literal s t m
quote_literal s t v (inr (inr (inl (u, same, (_, (_, (c, rest, at, is_t, _), _), _))))) e =
    let first = same_unit u.rest s.rest (ap (λ w. w.rest) (sym same)) at e in absurd (ground arith)
quote_literal s t v (inr (inr (inr (inl (u, same, (_, (_, (c, rest, at, is_f, _), _), _)))))) e =
    let first = same_unit u.rest s.rest (ap (λ w. w.rest) (sym same)) at e in absurd (ground arith)
quote_literal s t v (inr (inr (inr (inr (inl (u, same, (_, (_, (c, rest, at, is_n, _), _), _)))))))
      e =
    let first = same_unit u.rest s.rest (ap (λ w. w.rest) (sym same)) at e in absurd (ground arith)
quote_literal s t v (inr (inr (inr (inr (inr (inl (u, inl (c, rest, at, minus, _), _))))))) e =
    let first = same_unit s.rest s.rest refl at e in absurd (ground arith)
quote_literal s t v
      (inr (
        inr (
          inr
            (inr (inr (inl (u, inr same, (w, same', (_, (_, (c, rest, at, digit, _), _), _)))))))))
      e =
    let first = same_unit w.rest s.rest (ap (λ w. w.rest) (sym (same ∙ same'))) at e in
    absurd (ground arith)
quote_literal s t v (inr (inr (inr (inr (inr (inr (c, rest, at, sign, _))))))) e =
    let first = same_unit s.rest s.rest refl at e in absurd (ground arith)

-- The type of what the pattern matches is not `key`.
json_type-ne-key : (s t : State) → Matches json_pattern s t → json_type (text_between s t) ≢ key
json_type-ne-key s t m h =
    let (starts, tests) = json_type_key (text_between s t) h in
    let splits = text_between_splits s t (Matches-Leads json_pattern s t m) in
    let (v, e) = quote_first (text_between s t) t.rest starts in
    let l = quote_literal s t v m (splits ∙ e) in
    let value =
      text_between_eq s t (b'"' ∷ (l.body ++ b'"' ∷ []))
        (l.splits ∙ ap (◌∷◌ b'"') (sym (append_assoc l.body (b'"' ∷ []) t.rest))) in
    let fails =
      test-string_key (text_between s t)
        (record { body = l.body; is_body = l.is_body; splits = value }) in
    let bad = sym tests ∙ fails in cc

abbrev pub IsNotKey : Token → Type 0
IsNotKey t = t.type ≢ key

push_plain-IsNotKey :
    (s : Text) (tokens : List Token) → All IsNotKey tokens → All IsNotKey (push_plain s tokens)
push_plain-IsNotKey [] tokens h = h
push_plain-IsNotKey (c ∷ s) tokens h = All-append IsNotKey tokens _ h ((λ e. cc), tt)

json_step-IsNotKey :
    (acc : List Token) (done gap : Text) (s t : State) (next : List Token)
    → Matches json_pattern s t
    → json_step gap (text_between s t) acc ≡ some next
    → All IsNotKey acc
    → All IsNotKey next
unfolding json_step
json_step-IsNotKey acc done gap s t next m made h = subst (All IsNotKey) (some-injective _ _ made) (
    All-append IsNotKey (push_plain gap acc) _ (push_plain-IsNotKey gap acc h)
      (json_type-ne-key s t m, tt))

tokenize_json-IsNotKey :
    (code : Text) (tokens : List Token) → tokenize_json code ≡ some tokens → All IsNotKey tokens
unfolding tokenize_json
tokenize_json-IsNotKey code tokens h =
    let at : State = record { seen = []; rest = code; groups = [] } in
    let loop = exec_loop json_pattern json_step (suc (length code)) at [] in
    let ((out, last), e, e') = bind_some loop (λ x. some (push_plain x.1.rest x.0)) h in
    let (w, _, none_is) =
      exec_loop_inv json_pattern json_step (λ ts _. All IsNotKey ts) json_step-IsNotKey
        (suc (length code)) at [] [] out last e tt in
    subst (All IsNotKey) (some-injective _ _ e') (push_plain-IsNotKey last.rest out none_is)

with_comment-IsNotKey :
    (line : Text) (start : Option ℕ) (tokens : List Token)
    → with_comment tokenize_json line start ≡ some tokens
    → All IsNotKey tokens
with_comment-IsNotKey line none tokens h = tokenize_json-IsNotKey line tokens h
with_comment-IsNotKey line (some i) tokens h =
    let last = token (drop i line) comment in
    let (ts, e, e') = bind_some (tokenize_json (take i line)) (λ ts. some (ts ++ last ∷ [])) h in
    subst (All IsNotKey) (some-injective _ _ e')
      (All-append IsNotKey ts _ (tokenize_json-IsNotKey (take i line) ts e) ((λ k. cc), tt))

-- Whatever the line is, highlighting it as JSON marks no token as a key.
pub highlight_line_no_key :
    (line : Text) (tokens : List Token)
    → highlight_line line json ≡ some tokens
    → All IsNotKey tokens
unfolding highlight_line tokenize_code
highlight_line_no_key line tokens h = with_comment-IsNotKey line (find_comment_start line) tokens h
