-- ===== src/Components/Callout.antt =====
-- website/components/docs/callout.tsx.
use kube_cell.Common.{List, [], ◌∷◌, Option, none, some, Text, String, units}
use kube_cell.Dom.{computed, Node, text, el, fragment_of, cls, when_given, ClassNames}

pub data Variant : Type 0 where
  info warning tip : Variant

pub record Style : Type 0 where
  pub wrapper : Text
  pub icon : Text
  -- the name of the icon's component
  pub icon_component : String

abbrev styles : Variant → Style
styles info = record {
  wrapper = units "border-sky-400/20 bg-sky-500/[0.06]";
  icon = units "text-sky-300";
  icon_component = "Info";
}
styles warning = record {
  wrapper = units "border-amber-400/20 bg-amber-500/[0.06]";
  icon = units "text-amber-300";
  icon_component = "AlertTriangle";
}
styles tip = record {
  wrapper = units "border-emerald-400/20 bg-emerald-500/[0.06]";
  icon = units "text-emerald-300";
  icon_component = "Lightbulb";
}

-- `variant = "info"`
abbrev variant_or_info : Option Variant → Variant
variant_or_info none = info
variant_or_info (some v) = v

module _ (cn : ClassNames) where
  unfoldable pub callout : Option Variant → Option Text → List Node → Option Text → Node
  callout variant title children class_name =
      let look = styles (variant_or_info variant) in
      el "div"
        (computed "className" (
            cn (
              some (units "my-6 flex gap-3 rounded-xl border p-4")
              ∷ some (look.wrapper)
              ∷ class_name
              ∷ []))
          ∷ [])
        ((el look.icon_component
            (computed "className"
                (cn (some (units "mt-0.5 h-4 w-4 shrink-0") ∷ some (look.icon) ∷ []))
              ∷ [])
            [])
          ∷ (el "div" (cls "text-sm leading-6 text-foreground/85" ∷ []) (
              (when_given title (λ title.
                el "p" (cls "mb-1 font-semibold text-foreground" ∷ []) ((text title) ∷ [])))
              ∷ (fragment_of children)
              ∷ []))
          ∷ [])

  unfoldable pub prose : List Node → Option Text → Node
  prose children class_name =
      el "div" (computed "className" (cn (some (units "prose-kubecell") ∷ class_name ∷ [])) ∷ [])
        children
