-- ===== src/Components/JsonLd.antt =====
-- website/components/json-ld.tsx: the script element with the structured data of a page.
pub mod Announced
pub mod Safety
use kube_cell.Common.{[], ◌∷◌}
use kube_cell.Dom.{Node, str, inner_html, el}
use kube_cell.Json.{Json, stringify}

unfoldable pub json_ld : Json → Node
unfolding stringify
json_ld content =
    el "script" (str "type" "application/ld+json" ∷ inner_html (stringify content) ∷ []) []
