-- ===== src/Highlight/Lossless/Loops.antt =====
-- What the loops of the tokenizers push is the text that they pass, and they end.
use kube_cell.Common.{
  suc, ◌<◌, List, [], ◌∷◌, ◌++◌, ◌≡◌, sym, ap, ◌∙◌, Option, some, arith, Text, length, append_assoc,
  append-nil,
}
use kube_cell.Highlight.Types.{plain, Token, token, text_of, text_of-append, TokenType}
use kube_cell.Highlight.Patterns.{push_plain}
use kube_cell.Regex.{Regex, State, text_between, exec_loop}
use kube_cell.Regex.Consumed.{min_width}
use kube_cell.Regex.Loop.{exec_loop_inv, exec_loop_total}

pub text_of-push_plain :
    (s : Text) (tokens : List Token) → text_of (push_plain s tokens) ≡ text_of tokens ++ s
text_of-push_plain [] tokens = sym (append-nil _)
text_of-push_plain (c ∷ s) tokens =
    text_of-append tokens (token (c ∷ s) plain ∷ []) ∙ ap (λ w. text_of tokens ++ w) (append-nil _)

pub text_of-push :
    (tokens : List Token) (value : Text) (t : TokenType)
    → text_of (tokens ++ token value t ∷ []) ≡ text_of tokens ++ value
text_of-push tokens value t =
    text_of-append tokens (token value t ∷ []) ∙ ap (λ w. text_of tokens ++ w) (append-nil _)

-- The computation gives tokens that display the text.
pub record Shows (o : Option (List Token)) (shown : Text) : Type 0 where
  pub tokens : List Token
  pub given : o ≡ some tokens
  pub displays : text_of tokens ≡ shown

-- A loop over tokens whose body shows the gap and the value.
module _ (r : Regex) (body : Text → Text → List Token → Option (List Token))
    (wide : 0 < min_width r)
    (adds : (gap value : Text) (acc : List Token)
      → Shows (body gap value acc) (text_of acc ++ (gap ++ value))) where
  pub exec_loop_shows :
      (at : State) (acc : List Token)
      → (out : List Token) × (last : State) × (exec_loop r body (suc (length at.rest)) at acc
          ≡ some (out, last))
        × (text_of out ++ last.rest ≡ text_of acc ++ at.rest)
  exec_loop_shows at acc =
      let ((out, last), e) =
        exec_loop_total r body wide
          (λ gap value acc. ((adds gap value acc).tokens, (adds gap value acc).given))
          (suc (length at.rest)) at acc (omega arith) in
      let (w, splits, shown) =
        exec_loop_inv r body (λ ts done. text_of ts ≡ text_of acc ++ done)
          (λ ts done gap s t next m made i.
            let a = adds gap (text_between s t) ts in
            let same : next ≡ a.tokens = cc (a.given) in
            ap text_of same
            ∙ a.displays
            ∙ ap (λ w. w ++ (gap ++ text_between s t)) i
            ∙ append_assoc (text_of acc) done (gap ++ text_between s t))
          (suc (length at.rest)) at acc [] out last e (sym (append-nil _)) in
      (
        out,
        last,
        e,
        ap (λ w. w ++ last.rest) shown
            ∙ append_assoc (text_of acc) w last.rest
            ∙ ap (λ w. text_of acc ++ w) (sym splits),
      )
