-- ===== src/Components/CopyButton.antt =====
-- website/components/copy-button.tsx.
pub mod Timing
use kube_cell.Common.{Bool, [], ◌∷◌, Option, some, Text, units, if◌then◌else◌}
use kube_cell.Dom.{computed, handler_with, Node, el, str, cls, ClassNames}

-- What the button shows while `copied` is as given; its handler `copy` writes `value` to the
-- clipboard.
module _ (cn : ClassNames) where
  unfoldable pub copy_button : Bool → Text → Option Text → Node
  copy_button copied value class_name =
      el "button"
        (str "type" "button"
          ∷ handler_with "onClick" "copy" value
          ∷ computed "aria-label" (if copied then units "Copied" else units "Copy code")
          ∷ computed "className" (
              cn (
                some (
                  units
                    "inline-flex h-8 w-8 items-center justify-center rounded-md border border-white/10 bg-white/5 text-slate-400 transition-colors hover:bg-white/10 hover:text-slate-100")
                ∷ class_name
                ∷ []))
          ∷ [])
        ((if copied
            then (el "Check" (cls "h-3.5 w-3.5 text-emerald-400" ∷ []) [])
            else (el "Copy" (cls "h-3.5 w-3.5" ∷ []) []))
          ∷ [])
