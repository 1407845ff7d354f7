-- ===== src/Components/CodeBlock/Displayed.antt =====
-- What a code block displays and what its copy button copies.
use kube_cell.Common.{
  ℕ, suc, Bool, true, false, List, [], ◌∷◌, ◌++◌, Option, none, some, Text, ◌==◌, ◌≡◌, refl, ap,
  ◌∙◌, sym, arith, if◌then◌else◌, append-nil,
}
use kube_cell.Components.CodeBlock.{
  strip_newline, join_lines, code_lines, raw_code, line_tokens, some_tokens, code_line, code_block,
  language_or_yaml,
}
use kube_cell.Components.CodeBlock.Lines.{join_lines-split_lines}
use kube_cell.Components.CopyButton.{copy_button}
use kube_cell.Dom.{ClassNames, el, text, number, computed, map_from, to_nodes}
use kube_cell.Dom.NoLinks.{copy_values_of-map_from}
use kube_cell.Dom.Reading.{copy_values, shown, shown_of, kept, kept_of, shown_lines}
use kube_cell.Highlight.Lossless.Lines.{IsNotShell, highlight_line-Shows}
use kube_cell.Highlight.Types.{Token, Language, text_of, token_class_name}

line_tokens_whole :
    (language : Language) (line : Text)
    → IsNotShell language
    → text_of (line_tokens line language) ≡ line
unfolding line_tokens
line_tokens_whole language line h =
    let shows = highlight_line-Shows line language h in rw (shows.given, some_tokens) shows.displays

-- The texts of the elements of tokens, one after the other.
shown_of-tokens :
    (i : ℕ) (tokens : List Token)
    → shown_of (
        to_nodes (
          map_from i
            (λ (token : Token) token_index.
              el "span"
                (number "key" token_index 0
                  ∷ computed "className" ((token_class_name (token.type)))
                  ∷ [])
                ((text token.text) ∷ []))
            tokens))
      ≡ text_of tokens
unfolding shown
shown_of-tokens i [] = refl
shown_of-tokens i (token ∷ tokens) =
    rw (append-nil token.text) (ap (λ w. token.text ++ w) (shown_of-tokens (suc i) tokens))

code_line-kept :
    (cn : ClassNames) (numbered : Bool) (language : Language) (line : Text) (index : ℕ)
    → IsNotShell language
    → kept (code_line cn numbered language line index) ≡ line ∷ []
unfolding kept code_line
code_line-kept cn true language line index h =
    ap (λ w. w ∷ [])
      (shown_of-tokens 0 (line_tokens line language) ∙ line_tokens_whole language line h)
code_line-kept cn false language line index h =
    ap (λ w. w ∷ [])
      (shown_of-tokens 0 (line_tokens line language) ∙ line_tokens_whole language line h)

code_lines-kept :
    (cn : ClassNames) (numbered : Bool) (language : Language) (i : ℕ) (lines : List Text)
    → IsNotShell language
    → kept_of
        (to_nodes (map_from i (λ line index. code_line cn numbered language line index) lines))
      ≡ lines
unfolding kept
code_lines-kept cn numbered language i [] h = refl
code_lines-kept cn numbered language i (line ∷ lines) h =
    rw
      (
        code_line-kept cn numbered language line i h,
        code_lines-kept cn numbered language (suc i) lines h,
      )
      refl

code_block-shown_lines :
    (cn : ClassNames) (copied : Bool) (code : Text) (language : Option Language)
    (filename class_name : Option Text) (numbered : Bool) (max_height : Option Text)
    → IsNotShell (language_or_yaml language)
    → shown_lines (code_block cn copied code language filename class_name numbered max_height)
      ≡ code_lines code
unfolding shown_lines code_block copy_button
code_block-shown_lines cn true code language none class_name numbered max_height h =
    rw (code_lines-kept cn numbered (language_or_yaml language) 0 (code_lines code) h)
      (simp (append-nil))
code_block-shown_lines cn true code language (some []) class_name numbered max_height h =
    rw (code_lines-kept cn numbered (language_or_yaml language) 0 (code_lines code) h)
      (simp (append-nil))
code_block-shown_lines cn true code language (some (c ∷ filename)) class_name numbered max_height
      h =
    rw (code_lines-kept cn numbered (language_or_yaml language) 0 (code_lines code) h)
      (simp (append-nil))
code_block-shown_lines cn false code language none class_name numbered max_height h =
    rw (code_lines-kept cn numbered (language_or_yaml language) 0 (code_lines code) h)
      (simp (append-nil))
code_block-shown_lines cn false code language (some []) class_name numbered max_height h =
    rw (code_lines-kept cn numbered (language_or_yaml language) 0 (code_lines code) h)
      (simp (append-nil))
code_block-shown_lines cn false code language (some (c ∷ filename)) class_name numbered max_height
      h =
    rw (code_lines-kept cn numbered (language_or_yaml language) 0 (code_lines code) h)
      (simp (append-nil))

code_line-copy_values :
    (cn : ClassNames) (numbered : Bool) (language : Language) (line : Text) (index : ℕ)
    → copy_values (code_line cn numbered language line index) ≡ []
unfolding copy_values code_line
code_line-copy_values cn true language line index =
    rw (copy_values_of-map_from _ (λ token i. refl) 0 (line_tokens line language)) refl
code_line-copy_values cn false language line index =
    rw (copy_values_of-map_from _ (λ token i. refl) 0 (line_tokens line language)) refl

code_block-copy_values :
    (cn : ClassNames) (copied : Bool) (code : Text) (language : Option Language)
    (filename class_name : Option Text) (numbered : Bool) (max_height : Option Text)
    → copy_values (code_block cn copied code language filename class_name numbered max_height)
      ≡ raw_code code ∷ []
unfolding copy_values code_block copy_button
code_block-copy_values cn true code language none class_name numbered max_height =
    rw
      (copy_values_of-map_from _ (λ line i. code_line-copy_values cn numbered _ line i) 0
        (code_lines code))
      refl
code_block-copy_values cn true code language (some []) class_name numbered max_height =
    rw
      (copy_values_of-map_from _ (λ line i. code_line-copy_values cn numbered _ line i) 0
        (code_lines code))
      refl
code_block-copy_values cn true code language (some (c ∷ filename)) class_name numbered max_height =
    rw
      (copy_values_of-map_from _ (λ line i. code_line-copy_values cn numbered _ line i) 0
        (code_lines code))
      refl
code_block-copy_values cn false code language none class_name numbered max_height =
    rw
      (copy_values_of-map_from _ (λ line i. code_line-copy_values cn numbered _ line i) 0
        (code_lines code))
      refl
code_block-copy_values cn false code language (some []) class_name numbered max_height =
    rw
      (copy_values_of-map_from _ (λ line i. code_line-copy_values cn numbered _ line i) 0
        (code_lines code))
      refl
code_block-copy_values cn false code language (some (c ∷ filename)) class_name numbered max_height =
    rw
      (copy_values_of-map_from _ (λ line i. code_line-copy_values cn numbered _ line i) 0
        (code_lines code))
      refl

-- Whether the last unit is a newline.
abbrev pub ends_with_newline : Text → Bool
ends_with_newline [] = false
ends_with_newline (c ∷ []) = c == 10
ends_with_newline (c ∷ d ∷ s) = ends_with_newline (d ∷ s)

strip_newline_lem :
    (s : Text) → s ≡ strip_newline s ++ (if ends_with_newline s then 10 ∷ [] else [])
unfolding strip_newline
strip_newline_lem [] = refl
strip_newline_lem (c ∷ []) = ground arith
strip_newline_lem (c ∷ d ∷ s) = ap (◌∷◌ c) (strip_newline_lem (d ∷ s))

-- Outside bash and shell, the text that the copy button of a code block copies is the displayed
-- lines, without their numbers, one below the other, and it is the code of the block less one
-- newline at its end if there is one.
pub code_block-copies :
    (cn : ClassNames) (copied : Bool) (code : Text) (language : Option Language)
    (filename class_name : Option Text) (numbered : Bool) (max_height : Option Text)
    → IsNotShell (language_or_yaml language)
    → let block = code_block cn copied code language filename class_name numbered max_height in
      (copy_values block ≡ join_lines (shown_lines block) ∷ [])
      × (code ≡ join_lines (shown_lines block) ++ (if ends_with_newline code then 10 ∷ [] else []))
unfolding raw_code code_lines
code_block-copies cn copied code language filename class_name numbered max_height h =
    let lines =
      code_block-shown_lines cn copied code language filename class_name numbered max_height h in
    (
      code_block-copy_values cn copied code language filename class_name numbered max_height
          ∙ ap (λ w. join_lines w ∷ []) (sym lines),
      rw (lines, join_lines-split_lines (strip_newline code)) (strip_newline_lem code),
    )
