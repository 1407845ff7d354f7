-- ===== src/Architecture/RepoTree.antt =====
-- website/components/architecture/repo-tree.tsx.
use kube_cell.Common.{[], ◌∷◌, units}
use kube_cell.Dom.{list, Node, el, cls, datum}
use kube_cell.Json.{Json, json_string, json_array, json_object, elements, members}

-- `elements`
unfoldable pub repo_elements : Json
repo_elements = json_array (
    elements (
      json_object (
        members (
          (units "id", json_string (units "api"))
          ∷ (units "name", json_string (units "api/"))
          ∷ (units "type", json_string (units "folder"))
          ∷ (
            units "children",
            json_array (
                elements (
                  json_object (
                    members (
                      (units "id", json_string (units "api-types"))
                      ∷ (units "name", json_string (units "CRD types and validation"))
                      ∷ (units "type", json_string (units "file"))
                      ∷ []))
                  ∷ [])),
          )
          ∷ []))
      ∷ json_object (
          members (
            (units "id", json_string (units "cmd"))
            ∷ (units "name", json_string (units "cmd/"))
            ∷ (units "type", json_string (units "folder"))
            ∷ (
              units "children",
              json_array (
                  elements (
                    json_object (
                      members (
                        (units "id", json_string (units "cmd-management"))
                        ∷ (units "name", json_string (units "management controller"))
                        ∷ (units "type", json_string (units "file"))
                        ∷ []))
                    ∷ json_object (
                        members (
                          (units "id", json_string (units "cmd-webhook"))
                          ∷ (units "name", json_string (units "host webhook"))
                          ∷ (units "type", json_string (units "file"))
                          ∷ []))
                    ∷ json_object (
                        members (
                          (units "id", json_string (units "cmd-installer"))
                          ∷ (units "name", json_string (units "kubecell-installer"))
                          ∷ (units "type", json_string (units "file"))
                          ∷ []))
                    ∷ [])),
            )
            ∷ []))
      ∷ json_object (
          members (
            (units "id", json_string (units "internal"))
            ∷ (units "name", json_string (units "internal/"))
            ∷ (units "type", json_string (units "folder"))
            ∷ (
              units "children",
              json_array (
                  elements (
                    json_object (
                      members (
                        (units "id", json_string (units "internal-controllers"))
                        ∷ (units "name", json_string (units "controllers and rendering"))
                        ∷ (units "type", json_string (units "file"))
                        ∷ []))
                    ∷ json_object (
                        members (
                          (units "id", json_string (units "internal-admission"))
                          ∷ (units "name", json_string (units "admission"))
                          ∷ (units "type", json_string (units "file"))
                          ∷ []))
                    ∷ json_object (
                        members (
                          (units "id", json_string (units "internal-platform"))
                          ∷ (units "name", json_string (units "platform constants"))
                          ∷ (units "type", json_string (units "file"))
                          ∷ []))
                    ∷ [])),
            )
            ∷ []))
      ∷ json_object (
          members (
            (units "id", json_string (units "charts"))
            ∷ (units "name", json_string (units "charts/"))
            ∷ (units "type", json_string (units "folder"))
            ∷ (
              units "children",
              json_array (
                  elements (
                    json_object (
                      members (
                        (units "id", json_string (units "charts-management"))
                        ∷ (units "name", json_string (units "kubecell-management"))
                        ∷ (units "type", json_string (units "file"))
                        ∷ []))
                    ∷ json_object (
                        members (
                          (units "id", json_string (units "charts-host"))
                          ∷ (units "name", json_string (units "kubecell-host"))
                          ∷ (units "type", json_string (units "file"))
                          ∷ []))
                    ∷ [])),
            )
            ∷ []))
      ∷ json_object (
          members (
            (units "id", json_string (units "config"))
            ∷ (units "name", json_string (units "config/"))
            ∷ (units "type", json_string (units "folder"))
            ∷ (
              units "children",
              json_array (
                  elements (
                    json_object (
                      members (
                        (units "id", json_string (units "config-kubebuilder"))
                        ∷ (units "name", json_string (units "CRDs, RBAC, webhook, manager"))
                        ∷ (units "type", json_string (units "file"))
                        ∷ []))
                    ∷ [])),
            )
            ∷ []))
      ∷ json_object (
          members (
            (units "id", json_string (units "third-party"))
            ∷ (units "name", json_string (units "third-party/"))
            ∷ (units "type", json_string (units "folder"))
            ∷ (
              units "children",
              json_array (
                  elements (
                    json_object (
                      members (
                        (units "id", json_string (units "third-party-ocm"))
                        ∷ (units "name", json_string (units "pinned upstream versions (OCM)"))
                        ∷ (units "type", json_string (units "file"))
                        ∷ []))
                    ∷ [])),
            )
            ∷ []))
      ∷ json_object (
          members (
            (units "id", json_string (units "hack"))
            ∷ (units "name", json_string (units "hack/"))
            ∷ (units "type", json_string (units "folder"))
            ∷ (
              units "children",
              json_array (
                  elements (
                    json_object (
                      members (
                        (units "id", json_string (units "hack-image"))
                        ∷ (units "name", json_string (units "image and release helpers"))
                        ∷ (units "type", json_string (units "file"))
                        ∷ []))
                    ∷ [])),
            )
            ∷ []))
      ∷ json_object (
          members (
            (units "id", json_string (units "test"))
            ∷ (units "name", json_string (units "test/"))
            ∷ (units "type", json_string (units "folder"))
            ∷ (
              units "children",
              json_array (
                  elements (
                    json_object (
                      members (
                        (units "id", json_string (units "test-envtest"))
                        ∷ (units "name", json_string (units "envtest, chart contracts, e2e"))
                        ∷ (units "type", json_string (units "file"))
                        ∷ []))
                    ∷ [])),
            )
            ∷ []))
      ∷ json_object (
          members (
            (units "id", json_string (units "website"))
            ∷ (units "name", json_string (units "website/"))
            ∷ (units "type", json_string (units "folder"))
            ∷ (
              units "children",
              json_array (
                  elements (
                    json_object (
                      members (
                        (units "id", json_string (units "website-site"))
                        ∷ (units "name", json_string (units "this site and documentation"))
                        ∷ (units "type", json_string (units "file"))
                        ∷ []))
                    ∷ [])),
            )
            ∷ []))
      ∷ json_object (
          members (
            (units "id", json_string (units "design"))
            ∷ (units "name", json_string (units "technical-design.md"))
            ∷ (units "type", json_string (units "file"))
            ∷ []))
      ∷ []))

unfoldable pub repo_tree : Node
unfolding repo_elements
repo_tree =
    el "div"
      (cls "relative h-[26rem] overflow-hidden rounded-2xl border border-white/10 bg-[#070b14] p-4"
        ∷ [])
      ((el "Tree"
          (datum "elements" repo_elements
            ∷ list "initialExpandedItems"
                ((units "api") ∷ (units "cmd") ∷ (units "internal") ∷ (units "charts") ∷ [])
            ∷ cls "[&_button]:text-slate-300 [&_button:hover]:bg-white/5"
            ∷ [])
          [])
        ∷ [])
