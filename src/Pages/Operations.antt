-- ===== src/Pages/Operations.antt =====
-- website/app/docs/operations/page.tsx.
use kube_cell.Common.{Bool, false, [], ◌∷◌, none, some, Text, units}
use kube_cell.Dom.{Node, el, txt, str, cls, ClassNames}
use kube_cell.Components.Callout.{callout, prose, info, warning, tip}
use kube_cell.Components.CodeBlock.{code_block}
use kube_cell.Highlight.Types.{Language}
use kube_cell.Site.Metadata.{Metadata, build_metadata}

unfoldable pub metadata : Metadata
unfolding build_metadata
metadata = build_metadata (record {
  title = units "Day-2 operations";
  description =
      units
        "Operate KubeCell: health checks, credential handling, quota changes, ingress and DNS, storage lifecycle, upgrades, host maintenance, and cleanup.";
  path = units "/docs/operations/";
  keywords = some (
      units "KubeCell operations"
      ∷ units "VirtualCluster quota change"
      ∷ units "KubeCell upgrade"
      ∷ units "host maintenance Kubernetes"
      ∷ units "kubeconfig rotation"
      ∷ []);
  type = none;
})

abbrev pub health : Text
health =
    units
      "# Fleet overview: phase, OCM state, lease freshness\nkubectl -n kubecell-system get cells \\\n  -o custom-columns=NAME:.metadata.name,PHASE:.status.phase,\\\nJOINED:.status.managedCluster.joined,AVAILABLE:.status.managedCluster.available,\\\nLEASE:.status.managedCluster.leaseFresh,NODES:.status.nodes[*].name\n\n# Child clusters and their endpoints\nkubectl -n kubecell-system get vc \\\n  -o custom-columns=NAME:.metadata.name,PHASE:.status.phase,\\\nCELL:.spec.cellRef.name,CLASS:.spec.classRef.name,ENDPOINT:.status.endpoint.address\n\n# Is inventory fresh enough to make promises?\nkubectl -n kubecell-system get cell cell1 \\\n  -o jsonpath='{range .status.conditions[*]}{.type}={.status}{\"\\n\"}{end}'"

abbrev pub quota : Text
quota =
    units
      "# 1. Publish a new tier (platform action)\nkubectl apply -f virtualnodeclass-large.yaml\n\n# 2. Create a new child cluster on the larger tier\nkubectl apply -f child-dev-large.yaml\n\n# 3. Move workloads at your own pace, then delete the old cluster.\n#    Existing clusters keep the resolution snapshot they were built from;\n#    KubeCell never mutates a running child cluster in place."

abbrev pub credentials : Text
credentials =
    units
      "# Find the published credential\nkubectl -n kubecell-system get vc child-dev \\\n  -o jsonpath='{.status.credential.secretName}{\"\\n\"}'\n\n# Endpoint changed? The controller republishes the kubeconfig.\n# Re-fetch the Secret rather than editing the file by hand.\nkubectl -n kubecell-system get secret <secret-name> \\\n  -o jsonpath='{.data.kubeconfig\\.yaml}' | base64 -d > child-dev.yaml\nchmod 600 child-dev.yaml"

abbrev pub ingress : Text
ingress =
    units
      "# In the child cluster: standard Ingress, class kubecell\napiVersion: networking.k8s.io/v1\nkind: Ingress\nmetadata:\n  name: web\n  namespace: default\nspec:\n  ingressClassName: kubecell\n  rules:\n  - host: web.child-dev.apps.example.com   # <ingress>.<vc>.<apps-suffix>\n    http:\n      paths:\n      - path: /\n        pathType: Prefix\n        backend:\n          service:\n            name: web\n            port:\n              number: 80"

abbrev pub upgrade : Text
upgrade =
    units
      "# Version drift is reported, not silently fixed\nkubectl -n kubecell-system get cell cell1 \\\n  -o jsonpath='{.status.provider.k3kVersion}{\"\\n\"}'\n\n# Upgrades move through releases:\n#   1. Build/verify a new release bundle (digests + pinned versions).\n#   2. doctor against the current fleet.\n#   3. Apply the new management chart, then the host baseline per Cell.\n#   4. Watch Cell conditions and recreate child clusters only if the\n#      release notes require it."

abbrev pub maintenance : Text
maintenance =
    units
      "# Planned host maintenance (v1 has no live migration)\n# 1. Stop creating new child clusters on the Cell (tell tenants, or\n#    temporarily remove the class from your self-service flow).\n# 2. Delete or migrate child clusters deliberately; do not drain the host\n#    node under running reflected Pods and expect a graceful move.\n# 3. Perform maintenance, re-apply labels, verify the lease renews.\n# 4. Confirm inventory freshness before reopening the Cell."

-- `copied` is the state of the copy buttons.
module _ (cn : ClassNames) where
  unfoldable pub operations_page : Bool → Node
  unfolding prose callout
  operations_page copied =
      prose cn
        ((el "p" (cls "font-mono text-xs uppercase tracking-[0.2em] text-sky-400" ∷ [])
            ((txt "Guides") ∷ []))
          ∷ (el "h1"
              (cls "mt-3 text-3xl font-semibold tracking-tight text-foreground sm:text-4xl" ∷ [])
              ((txt "Day-2 operations") ∷ []))
          ∷ (el "p" (cls "mt-5 text-base leading-7 text-muted-foreground" ∷ []) (
              (txt
                "KubeCell is designed to be operated from status, not from tribal knowledge. This page covers the routines that keep a fleet healthy and the actions that are deliberately manual.")
              ∷ []))
          ∷ (el "h2" (str "id" "health" ∷ []) ((txt "Routine health checks") ∷ []))
          ∷ (el "p" [] (
              (txt
                "Two questions matter every day: are the Cells alive, and is the inventory fresh enough to make promises? The second is easy to forget and the cause of most \"the Plan lied\" reports.")
              ∷ []))
          ∷ (code_block cn copied health (some Language.bash) (some (units "health.sh"))
              (some (units "not-prose my-6")) false none)
          ∷ (callout cn (some info) (some (units "Lease freshness is the liveness signal"))
              ((txt "OCM ")
                ∷ (el "code" [] ((txt "Available=True") ∷ []))
                ∷ (txt " has been observed to go stale without updates. Treat a fresh")
                ∷ (txt " ")
                ∷ (el "code" [] ((txt "managed-cluster-lease") ∷ []))
                ∷ (txt " as the decisive signal, and ")
                ∷ (el "code" [] ((txt "InventoryFresh") ∷ []))
                ∷ (txt " as the precondition for any capacity decision.")
                ∷ [])
              none)
          ∷ (el "h2" (str "id" "quota" ∷ []) ((txt "Changing a child cluster's size") ∷ []))
          ∷ (el "p" [] (
              (txt
                "There is no in-place resize. Vertical scaling is a deliberate move to a different quota tier: publish the new class, create the new child cluster, move workloads, delete the old one.")
              ∷ []))
          ∷ (code_block cn copied quota (some Language.bash) (some (units "quota.sh"))
              (some (units "not-prose my-6")) false none)
          ∷ (callout cn (some tip) (some (units "Why no in-place resize"))
              ((txt
                  "Quota changes ripple into the Foundation Work, the child control-plane size, and the resolution snapshot. Recreating keeps every step observable and reversible; patching would make partial failure states hard to reason about.")
                ∷ [])
              none)
          ∷ (el "h2" (str "id" "credentials" ∷ []) ((txt "Credentials and endpoint changes") ∷ []))
          ∷ (el "p" [] (
              (txt
                "The child admin kubeconfig is always published. When the discovered host address changes, the controller rewrites and republishes the Secret — clients should re-fetch rather than pin an address.")
              ∷ []))
          ∷ (code_block cn copied credentials (some Language.bash) (some (units "credentials.sh"))
              (some (units "not-prose my-6")) false none)
          ∷ (callout cn (some warning) (some (units "Credentials are cluster-admin"))
              ((txt
                  "Child kubeconfigs grant admin on the child cluster. Distribute them through your secret manager, keep file modes at 600, and revoke by deleting the VirtualCluster.")
                ∷ [])
              none)
          ∷ (el "h2" (str "id" "ingress" ∷ []) ((txt "Ingress and DNS") ∷ []))
          ∷ (el "p" [] (
              (txt
                "Host Traefik owns ports 80 and 443 for the entire host. It watches only VirtualCluster namespaces carrying the KubeCell label. Developers choose the Ingress name; the rest of the hostname is derived.")
              ∷ []))
          ∷ (code_block cn copied ingress (some Language.yaml) (some (units "ingress.yaml"))
              (some (units "not-prose my-6")) false none)
          ∷ (el "p" [] (
              (txt
                "DNS automation is enabled when a second host arrives: point a wildcard record for")
              ∷ (txt " ")
              ∷ (el "code" [] ((txt "*.<vc>.<apps-suffix>") ∷ []))
              ∷ (txt
                  " at the Cell's ingress address. Ingress routing is outside the locked-combination commitments, so verify it in your environment before promising it to tenants.")
              ∷ []))
          ∷ (el "h2" (str "id" "storage" ∷ []) ((txt "Storage lifecycle") ∷ []))
          ∷ (el "ul" [] (
              (el "li" [] (
                (txt
                  "Child PVCs are reflected to host PVCs on TopoLVM. If a child PVC does not bind, check topology labels first, then TopoLVM health.")
                ∷ []))
              ∷ (el "li" [] (
                  (txt "Under ")
                  ∷ (el "code" [] ((txt "Retain") ∷ []))
                  ∷ (txt ", deleting a VirtualCluster leaves PVs ")
                  ∷ (el "code" [] ((txt "Released") ∷ []))
                  ∷ (txt " and data intact. Reclaim deliberately with ")
                  ∷ (el "code" [] ((txt "lvremove") ∷ []))
                  ∷ (txt " for cluster-created volumes only; never remove the volume group.")
                  ∷ []))
              ∷ (el "li" [] (
                  (txt
                    "Storage free space is read from TopoLVM/lvmd. Inferring it from PV capacity is explicitly forbidden, so treat ")
                  ∷ (el "code" [] ((txt "freeCapacityKnown=false") ∷ []))
                  ∷ (txt " as \"unknown\", not \"zero\".")
                  ∷ []))
              ∷ []))
          ∷ (el "h2" (str "id" "upgrades" ∷ []) ((txt "Upgrades and version pinning") ∷ []))
          ∷ (el "p" [] (
              (txt
                "Versions move through releases. The controller reports observed versions; it never upgrades anything on its own.")
              ∷ []))
          ∷ (code_block cn copied upgrade (some Language.bash) (some (units "upgrade.sh"))
              (some (units "not-prose my-6")) false none)
          ∷ (el "h2" (str "id" "maintenance" ∷ []) ((txt "Planned host maintenance") ∷ []))
          ∷ (el "p" [] (
              (txt
                "The first version does not migrate running child clusters between hosts. Plan maintenance windows accordingly and communicate them to tenants.")
              ∷ []))
          ∷ (code_block cn copied maintenance (some Language.bash) (some (units "maintenance.sh"))
              (some (units "not-prose my-6")) false none)
          ∷ (el "h2" (str "id" "cleanup" ∷ []) ((txt "Cleanup checklist") ∷ []))
          ∷ (el "ul" [] (
              (el "li" [] (
                (txt
                  "Delete child clusters you no longer need; the finalizer cleans the host side.")
                ∷ []))
              ∷ (el "li" [] (
                  (txt "Check for ")
                  ∷ (el "code" [] ((txt "Released") ∷ []))
                  ∷ (txt " PVs and decide reclaim vs. retain per volume.")
                  ∷ []))
              ∷ (el "li" [] (
                  (txt "Remove unused VirtualNodeClasses so tenants cannot request dead tiers.")
                  ∷ []))
              ∷ (el "li" [] (
                  (txt "Remove the OCM ")
                  ∷ (el "code" [] ((txt "ManagedCluster") ∷ []))
                  ∷ (txt
                      " registration explicitly if a host leaves the fleet; Helm uninstall does not do it for you.")
                  ∷ []))
              ∷ []))
          ∷ (el "p" [] (
              (txt "Next: ")
              ∷ (el "Link" (str "href" "/docs/api-reference/" ∷ []) ((txt "API reference") ∷ []))
              ∷ (txt " or")
              ∷ (txt " ")
              ∷ (el "Link" (str "href" "/docs/troubleshooting/" ∷ [])
                  ((txt "troubleshooting") ∷ []))
              ∷ (txt ".")
              ∷ []))
          ∷ [])
        none
