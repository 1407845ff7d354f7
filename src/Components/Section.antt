-- ===== src/Components/Section.antt =====
-- website/components/section.tsx.
use kube_cell.Common.{List, [], ◌∷◌, Option, some, Text, units}
use kube_cell.Dom.{computed, given, Node, text, el, cls, when_given, when_any, ClassNames}

pub data Align : Type 0 where
  center left : Align

abbrev align_class : Align → Text
align_class center = units "mx-auto text-center"
align_class left = units "text-left"

module _ (cn : ClassNames) where
  unfoldable pub section : Option Text → Option Text → List Node → Node
  section id class_name children =
      el "section"
        (given "id" id
          ∷ computed "className" (cn (some (units "relative py-20 sm:py-24") ∷ class_name ∷ []))
          ∷ [])
        ((el "div" (cls "container-page" ∷ []) children) ∷ [])

  unfoldable pub section_heading : Option Text → Node → Option Node → Align → Option Text → Node
  section_heading eyebrow title description align class_name =
      el "div"
        (computed "className"
            (cn (some (units "max-w-3xl") ∷ some (align_class align) ∷ class_name ∷ []))
          ∷ [])
        ((when_given eyebrow (λ eyebrow.
            el "p"
              (cls "mb-3 font-mono text-xs font-medium uppercase tracking-[0.2em] text-sky-400"
                ∷ [])
              ((text eyebrow) ∷ [])))
          ∷ (el "h2"
              (cls "text-balance text-3xl font-semibold tracking-tight text-foreground sm:text-4xl"
                ∷ [])
              (title ∷ []))
          ∷ (when_given description (λ description.
              el "p"
                (cls "mt-4 text-pretty text-base leading-7 text-muted-foreground sm:text-lg" ∷ [])
                (description ∷ [])))
          ∷ [])

unfoldable pub page_hero : Text → Node → Node → List Node → Node
page_hero eyebrow title description children =
    el "div" (cls "relative overflow-hidden border-b border-white/5" ∷ []) (
      (el "div" (cls "pointer-events-none absolute inset-0 bg-grid-faint opacity-60" ∷ []) [])
      ∷ (el "div"
          (cls
              "pointer-events-none absolute -top-40 left-1/2 h-80 w-[46rem] -translate-x-1/2 rounded-full bg-sky-500/10 blur-3xl"
            ∷ [])
          [])
      ∷ (el "div" (cls "container-page relative py-20 sm:py-24" ∷ []) (
          (el "p"
            (cls "mb-3 font-mono text-xs font-medium uppercase tracking-[0.2em] text-sky-400" ∷ [])
            ((text eyebrow) ∷ []))
          ∷ (el "h1"
              (cls
                  "max-w-3xl text-balance text-4xl font-semibold tracking-tight text-foreground sm:text-5xl"
                ∷ [])
              (title ∷ []))
          ∷ (el "div"
              (cls "mt-5 max-w-2xl text-pretty text-base leading-7 text-muted-foreground sm:text-lg"
                ∷ [])
              (description ∷ []))
          ∷ (when_any children
              (el "div" (cls "mt-8 flex flex-wrap items-center gap-3" ∷ []) children))
          ∷ []))
      ∷ [])
