-- ===== src/Components/CodeBlock.antt =====
-- website/components/code-block.tsx.
pub mod Lines
pub mod Displayed
pub mod Copied
pub mod NoLinks
use kube_cell.Common.{
  ℕ, Bool, true, false, List, [], ◌∷◌, ◌++◌, Option, none, some, Text, String, units, text_eq, map,
  take, if◌then◌else◌, length, ltb, ◌==◌, not, suc, zero, starts_with, ◌+◌, ◌*◌, ◌-◌,
}
use kube_cell.Dom.{
  Prop, computed, number, minus, flag, handler, ref, list, style, given, Node, text, digits,
  nothing, el, fragment_of, txt, str, cls, when_given, given_or, truthy, when_any, map_index,
  ClassNames,
}
use kube_cell.Components.CopyButton.{copy_button}
use kube_cell.Highlight.Line.{highlight_line}
use kube_cell.Highlight.Types.{Token, Language, yaml, token_class_name}

-- `code.replace(/\n$/, "")`
unfoldable pub strip_newline : Text → Text
strip_newline [] = []
strip_newline (c ∷ []) = if c == 10 then [] else c ∷ []
strip_newline (c ∷ d ∷ s) = c ∷ strip_newline (d ∷ s)

abbrev add_first : ℕ → List Text → List Text
add_first c [] = (c ∷ []) ∷ []
add_first c (line ∷ lines) = (c ∷ line) ∷ lines

-- `text.split("\n")`
unfoldable pub split_lines : Text → List Text
split_lines [] = [] ∷ []
split_lines (c ∷ s) = let lines = split_lines s in if c == 10 then [] ∷ lines else add_first c lines

-- `lines.join("\n")`
unfoldable pub join_lines : List Text → Text
join_lines [] = []
join_lines (line ∷ []) = line
join_lines (line ∷ next ∷ lines) = line ++ 10 ∷ join_lines (next ∷ lines)

-- The local variables `lines` and `raw`.
unfoldable pub code_lines : Text → List Text
unfolding strip_newline split_lines
code_lines code = split_lines (strip_newline code)

unfoldable pub raw_code : Text → Text
unfolding code_lines join_lines
raw_code code = join_lines (code_lines code)

-- The tokens of a line: `highlightLine` always returns some.
abbrev pub some_tokens : Option (List Token) → List Token
some_tokens none = []
some_tokens (some tokens) = tokens

unfoldable pub line_tokens : Text → Language → List Token
unfolding highlight_line
line_tokens line language = some_tokens (highlight_line line language)

abbrev language_name : Language → Text
language_name yaml = units "yaml"
language_name Language.bash = units "bash"
language_name Language.shell = units "shell"
language_name Language.go = units "go"
language_name Language.json = units "json"
language_name Language.text = units "text"

-- `language = "yaml"`
abbrev pub language_or_yaml : Option Language → Language
language_or_yaml none = yaml
language_or_yaml (some language) = language

abbrev max_height_style : Option Text → List (String × Text)
max_height_style none = []
max_height_style (some height) = ("maxHeight", height) ∷ []

module _ (cn : ClassNames) where
  -- One line, with its number if numbers are shown.
  unfoldable pub code_line : Bool → Language → Text → ℕ → Node
  unfolding line_tokens
  code_line show_line_numbers language line index =
      el "span" (number "key" index 0 ∷ cls "grid grid-cols-[auto_1fr] gap-4" ∷ []) (
        (if show_line_numbers
          then (el "span" (cls "select-none text-right text-slate-600" ∷ [])
              ((digits (index + 1)) ∷ []))
          else (el "span" (cls "hidden" ∷ []) []))
        ∷ (el "span" (cls "whitespace-pre text-slate-200" ∷ []) (
            map_index
              (λ token token_index.
                el "span"
                  (number "key" token_index 0
                    ∷ computed "className" ((token_class_name (token.type)))
                    ∷ [])
                  ((text token.text) ∷ []))
              (line_tokens line language)))
        ∷ [])

  -- `copied` is the state of the button.
  unfoldable pub code_block :
      Bool → Text → Option Language → Option Text → Option Text → Bool → Option Text → Node
  unfolding code_line code_lines raw_code copy_button
  code_block copied code language_given filename class_name show_line_numbers max_height =
      let language = language_or_yaml language_given in
      el "div"
        (computed "className" (
            cn (
              some (
                units
                  "group relative overflow-hidden rounded-xl border border-white/10 bg-[#070b14] shadow-[0_20px_60px_-30px_rgba(15,40,90,0.9)]")
              ∷ class_name
              ∷ []))
          ∷ [])
        ((el "div"
            (cls
                "flex items-center justify-between border-b border-white/5 bg-white/[0.02] px-3 py-2"
              ∷ [])
            ((el "div" (cls "flex items-center gap-2" ∷ []) (
                (el "span" (cls "flex gap-1.5" ∷ []) (
                  (el "span" (cls "h-2.5 w-2.5 rounded-full bg-red-500/70" ∷ []) [])
                  ∷ (el "span" (cls "h-2.5 w-2.5 rounded-full bg-amber-400/70" ∷ []) [])
                  ∷ (el "span" (cls "h-2.5 w-2.5 rounded-full bg-emerald-500/70" ∷ []) [])
                  ∷ []))
                ∷ (given_or (truthy filename)
                    (λ filename.
                      el "span" (cls "ml-2 font-mono text-xs text-slate-400" ∷ [])
                        ((text filename) ∷ []))
                    (el "span"
                      (cls "ml-2 font-mono text-xs uppercase tracking-wider text-slate-500" ∷ [])
                      ((text (language_name language)) ∷ [])))
                ∷ []))
              ∷ (copy_button cn copied (raw_code code) none)
              ∷ []))
          ∷ (el "div" (cls "overflow-auto" ∷ style (max_height_style (truthy max_height)) ∷ []) (
              (el "pre" (cls "p-4 text-[13px] leading-6" ∷ []) (
                (el "code" (cls "font-mono" ∷ []) (
                  map_index (λ line index. code_line show_line_numbers language line index)
                    (code_lines code)))
                ∷ []))
              ∷ []))
          ∷ [])
