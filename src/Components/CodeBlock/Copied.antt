-- ===== src/Components/CodeBlock/Copied.antt =====
-- What the clipboard has after the copy button of a code block has been used.
use kube_cell.Common.{Bool, true, List, [], ◌∷◌, Option, some, Text, ◌≡◌, ◌∙◌, ap, sym}
use kube_cell.Components.CodeBlock.{join_lines, code_block, language_or_yaml}
use kube_cell.Components.CodeBlock.Displayed.{code_block-copies}
use kube_cell.Components.CopyButton.Timing.{CopyState, Event, fresh, run_events, run_events-Copies}
use kube_cell.Dom.{ClassNames}
use kube_cell.Dom.Reading.{copy_values, shown_lines}
use kube_cell.Highlight.Lossless.Lines.{IsNotShell}
use kube_cell.Highlight.Types.{Language}

abbrev first_or : Text → List Text → Text
first_or s [] = s
first_or s (value ∷ values) = value

-- In every order of clicks, settled writes and fired timers, as long as the copy button of a code
-- block outside bash and shell says "Copied", what it wrote to the clipboard is the displayed lines
-- of the block, without their numbers, one below the other.
pub code_block-clipboard :
    (cn : ClassNames) (copied : Bool) (code : Text) (language : Option Language)
    (filename class_name : Option Text) (numbered : Bool) (max_height : Option Text) (value : Text)
    (events : List Event) (last : CopyState)
    → IsNotShell (language_or_yaml language)
    → copy_values (code_block cn copied code language filename class_name numbered max_height)
      ≡ value ∷ []
    → run_events value events fresh ≡ some last
    → last.copied ≡ true
    → last.clipboard
      ≡ some (
          join_lines (
            shown_lines
              (code_block cn copied code language filename class_name numbered max_height)))
code_block-clipboard cn copied code language filename class_name numbered max_height value events
      last h handed run shows =
    let (copies, whole) =
      code_block-copies cn copied code language filename class_name numbered max_height h in
    run_events-Copies value events fresh last run (λ never. cc) shows
    ∙ ap (λ values. some (first_or value values)) (sym handed ∙ copies)
