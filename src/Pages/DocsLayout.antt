-- ===== src/Pages/DocsLayout.antt =====
-- website/app/docs/layout.tsx.
use kube_cell.Common.{List, [], ◌∷◌, Text, units}
use kube_cell.Dom.{Node, el, fragment_of, cls, ClassNames}
use kube_cell.Layout.DocsNav.{docs_pager, docs_sidebar, docs_mobile_nav}
use kube_cell.Json.{Json, json_string, json_object, members}

unfoldable pub metadata : Json
metadata = json_object (
    members (
      (
        units "title",
        json_object (
            members (
              (units "default", json_string (units "Documentation"))
              ∷ (units "template", json_string (units "%s | KubeCell Docs"))
              ∷ [])),
      )
      ∷ (
        units "description",
        json_string (
            units
              "KubeCell documentation: concepts, installation, host onboarding, day-2 operations, API reference, security, and troubleshooting."),
      )
      ∷ (
        units "alternates",
        json_object (members ((units "canonical", json_string (units "/docs/")) ∷ [])),
      )
      ∷ []))

module _ (cn : ClassNames) where
  unfoldable pub docs_layout : Text → List Node → Node
  docs_layout pathname children = el "div" (cls "relative" ∷ []) (
      (el "div"
        (cls "pointer-events-none absolute inset-x-0 top-0 h-72 bg-grid-faint opacity-40" ∷ []) [])
      ∷ (el "div" (cls "container-page relative" ∷ []) (
          (el "div"
            (cls "grid gap-10 py-12 lg:grid-cols-[16rem_minmax(0,1fr)] lg:gap-14 lg:py-16" ∷ [])
            ((el "aside"
                (cls "lg:sticky lg:top-24 lg:h-[calc(100vh-8rem)] lg:overflow-y-auto lg:pr-2" ∷ [])
                ((docs_mobile_nav cn pathname)
                  ∷ (el "div" (cls "hidden lg:block" ∷ []) ((docs_sidebar cn pathname) ∷ []))
                  ∷ []))
              ∷ (el "div" (cls "min-w-0 max-w-3xl" ∷ [])
                  ((fragment_of children) ∷ (docs_pager pathname) ∷ []))
              ∷ []))
          ∷ []))
      ∷ [])
