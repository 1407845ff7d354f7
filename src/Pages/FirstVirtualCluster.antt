-- ===== src/Pages/FirstVirtualCluster.antt =====
-- website/app/docs/first-virtualcluster/page.tsx.
use kube_cell.Common.{Bool, false, [], ◌∷◌, none, some, Text, units}
use kube_cell.Dom.{Node, el, txt, str, cls, ClassNames}
use kube_cell.Components.Callout.{callout, prose, warning}
use kube_cell.Components.CodeBlock.{code_block}
use kube_cell.Highlight.Types.{Language}
use kube_cell.Site.Metadata.{Metadata, build_metadata}

unfoldable pub metadata : Metadata
unfolding build_metadata
metadata = build_metadata (record {
  title = units "Create your first VirtualCluster";
  description =
      units
        "Create a Cell, draft a VirtualNodeClass, preflight with a VirtualClusterPlan, create a VirtualCluster, export the admin kubeconfig, and verify workloads, storage, and ingress.";
  path = units "/docs/first-virtualcluster/";
  keywords = some (
      units "create VirtualCluster"
      ∷ units "KubeCell kubeconfig"
      ∷ units "KubeCell Plan Accepted"
      ∷ units "child cluster verification"
      ∷ []);
  type = none;
})

abbrev pub plan_yaml : Text
plan_yaml =
    units
      "apiVersion: kubecell.io/v1alpha1\nkind: VirtualClusterPlan\nmetadata:\n  name: child-dev-plan\n  namespace: kubecell-system\nspec:\n  cellRef: {name: cell1}\n  classRef: {name: ascend-910b-small}"

abbrev pub vc_yaml : Text
vc_yaml =
    units
      "apiVersion: kubecell.io/v1alpha1\nkind: VirtualCluster\nmetadata:\n  name: child-dev\n  namespace: kubecell-system\nspec:\n  cellRef: {name: cell1}\n  classRef: {name: ascend-910b-small}"

abbrev pub kubeconfig : Text
kubeconfig =
    units
      "VC=child-dev\n\n# The Secret name embeds the VirtualCluster UID\nSECRET=$(kubectl -n kubecell-system get vc $VC \\\n  -o jsonpath='{.status.credential.secretName}')\n\nkubectl -n kubecell-system get secret \"$SECRET\" \\\n  -o jsonpath='{.data.kubeconfig\\.yaml}' | base64 -d > $VC.yaml\nchmod 600 $VC.yaml\n\nkubectl --kubeconfig $VC.yaml get nodes\nkubectl --kubeconfig $VC.yaml get ns"

abbrev pub workload : Text
workload =
    units
      "cat <<'EOF' | kubectl --kubeconfig child-dev.yaml apply -f -\napiVersion: v1\nkind: Pod\nmetadata:\n  name: cpu-smoke\nspec:\n  containers:\n  - name: app\n    image: registry.k8s.io/pause:3.10\n    resources:\n      requests: {cpu: 100m, memory: 128Mi}\n      limits: {cpu: 200m, memory: 256Mi}\nEOF\n\n# Confirm the reflected host Pod and quota accounting\nkubectl -n kubecell-system get vc child-dev \\\n  -o jsonpath='{.status.host.quotaUsed}{\"\\n\"}'"

-- `copied` is the state of the copy buttons.
module _ (cn : ClassNames) where
  unfoldable pub first_virtual_cluster_page : Bool → Node
  unfolding prose callout
  first_virtual_cluster_page copied =
      prose cn
        ((el "p" (cls "font-mono text-xs uppercase tracking-[0.2em] text-sky-400" ∷ [])
            ((txt "Getting started") ∷ []))
          ∷ (el "h1"
              (cls "mt-3 text-3xl font-semibold tracking-tight text-foreground sm:text-4xl" ∷ [])
              ((txt "Create your first VirtualCluster") ∷ []))
          ∷ (el "p" (cls "mt-5 text-base leading-7 text-muted-foreground" ∷ []) (
              (txt
                "This guide assumes a Ready Cell and an existing quota tier. If you have not onboarded a host yet, start with ")
              ∷ (el "Link" (str "href" "/docs/host-onboarding/" ∷ [])
                  ((txt "host onboarding") ∷ []))
              ∷ (txt ".")
              ∷ []))
          ∷ (el "h2" (str "id" "prerequisites" ∷ []) ((txt "Before you start") ∷ []))
          ∷ (el "ul" [] (
              (el "li" [] (
                (txt "The target Cell is ")
                ∷ (el "strong" [] ((txt "Ready") ∷ []))
                ∷ (txt ": OCM ")
                ∷ (el "code" [] ((txt "Joined=True") ∷ []))
                ∷ (txt ", a fresh")
                ∷ (txt " ")
                ∷ (el "code" [] ((txt "managed-cluster-lease") ∷ []))
                ∷ (txt ", and fresh inventory.")
                ∷ []))
              ∷ (el "li" [] (
                  (txt "The quota tier (")
                  ∷ (el "code" [] ((txt "VirtualNodeClass") ∷ []))
                  ∷ (txt ") you intend to use already exists.")
                  ∷ []))
              ∷ (el "li" [] (
                  (txt "You are applying into ")
                  ∷ (el "code" [] ((txt "kubecell-system") ∷ []))
                  ∷ (txt " on the management cluster, where the controller lives.")
                  ∷ []))
              ∷ []))
          ∷ (el "h2" (str "id" "inspect" ∷ [])
              ((txt "1. Inspect the Cell before requesting anything") ∷ []))
          ∷ (el "p" [] (
              (txt
                "Feasibility conclusions are only as good as the inventory they read. Check freshness first, then look at headroom.")
              ∷ []))
          ∷ (code_block cn copied
              (units
                "kubectl -n kubecell-system get cell cell1 -o yaml | less\n\n# Things to look at in status:\n#   conditions        -> InventoryFresh must be true\n#   nodes[]           -> per-node capacity, allocatable, active/pending requests\n#   inventory         -> aggregated available estimates per resource\n#   storageInventory  -> freeCapacityKnown and freshness")
              (some Language.bash) (some (units "inspect.sh")) (some (units "not-prose my-6")) false
              none)
          ∷ (callout cn (some warning) (some (units "Stop if inventory is stale"))
              ((txt "If ")
                ∷ (el "code" [] ((txt "InventoryFresh") ∷ []))
                ∷ (txt
                    " is false or key inventory is unknown, do not create anything. Contact operations; no feasibility conclusion is trustworthy at that point.")
                ∷ [])
              none)
          ∷ (el "h2" (str "id" "plan" ∷ []) ((txt "2. Preflight with a Plan") ∷ []))
          ∷ (el "p" [] (
              (txt
                "Write a VirtualClusterPlan with exactly the content you intend to create. Wait for")
              ∷ (txt " ")
              ∷ (el "code" [] ((txt "status.decision") ∷ []))
              ∷ (txt " and read ")
              ∷ (el "code" [] ((txt "checks") ∷ []))
              ∷ (txt " when it is rejected.")
              ∷ []))
          ∷ (code_block cn copied plan_yaml (some Language.yaml) (some (units "plan.yaml"))
              (some (units "not-prose my-6")) false none)
          ∷ (code_block cn copied
              (units
                "kubectl apply -f plan.yaml\nkubectl -n kubecell-system get vcp child-dev-plan \\\n  -o jsonpath='{.status.decision}{\"\\n\"}'\n\n# Rejected? Read the failed items and adjust the request or the Cell.\nkubectl -n kubecell-system get vcp child-dev-plan \\\n  -o jsonpath='{range .status.checks[*]}{.resource}{\"\\t\"}{.result}{\"\\n\"}{end}'")
              (some Language.bash) (some (units "decision.sh")) (some (units "not-prose my-6"))
              false none)
          ∷ (el "p" [] (
              (el "code" [] ((txt "Accepted") ∷ []))
              ∷ (txt " means buildable under the current snapshot; ")
              ∷ (el "code" [] ((txt "Rejected") ∷ []))
              ∷ (txt " means a specific resource is missing; ")
              ∷ (el "code" [] ((txt "Unknown") ∷ []))
              ∷ (txt
                  " means the inventory was insufficient to decide. Remember that acceptance is not reservation: the controller rechecks at creation time.")
              ∷ []))
          ∷ (el "h2" (str "id" "create" ∷ []) ((txt "3. Create the VirtualCluster") ∷ []))
          ∷ (el "p" [] (
              (txt
                "The Plan and the VirtualCluster are isomorphic — the same file with a different")
              ∷ (txt " ")
              ∷ (el "code" [] ((txt "kind") ∷ []))
              ∷ (txt ". The webhook validates that references exist and quota keys are legal.")
              ∷ []))
          ∷ (code_block cn copied vc_yaml (some Language.yaml) (some (units "virtualcluster.yaml"))
              (some (units "not-prose my-6")) false none)
          ∷ (code_block cn copied
              (units
                "kubectl apply -f virtualcluster.yaml\n\n# The first Ready transition typically takes 10-20 minutes (image pulls).\nkubectl -n kubecell-system wait --for=condition=Ready vc/child-dev --timeout=25m\nkubectl -n kubecell-system get vc child-dev -o wide")
              (some Language.bash) (some (units "wait.sh")) (some (units "not-prose my-6")) false
              none)
          ∷ (el "h2" (str "id" "kubeconfig" ∷ []) ((txt "4. Fetch the admin kubeconfig") ∷ []))
          ∷ (el "p" [] (
              (txt
                "The controller reads the K3k-generated kubeconfig through the OCM proxy, rewrites the server address to the discovered host address and NodePort, and publishes it as a Secret in the management plane. The Secret is always published; treat it as a credential.")
              ∷ []))
          ∷ (code_block cn copied kubeconfig (some Language.bash) (some (units "kubeconfig.sh"))
              (some (units "not-prose my-6")) false none)
          ∷ (el "h2" (str "id" "verify" ∷ [])
              ((txt "5. Verify workloads, storage, and ingress") ∷ []))
          ∷ (code_block cn copied workload (some Language.bash) (some (units "workload.sh"))
              (some (units "not-prose my-6")) false none)
          ∷ (el "ul" [] (
              (el "li" [] (
                (txt "The child cluster has exactly one node named ")
                ∷ (el "code" [] ((txt "kubelet") ∷ []))
                ∷ (txt ".")
                ∷ []))
              ∷ (el "li" [] (
                  (txt
                    "A child PVC becomes a host PVC backed by TopoLVM; check that it binds, not just that it is created.")
                  ∷ []))
              ∷ (el "li" [] (
                  (el "code" [] ((txt "hostPath") ∷ []))
                  ∷ (txt
                      " volumes are rejected at admission with a replacement hint — this is expected behavior, not a bug.")
                  ∷ []))
              ∷ (el "li" [] (
                  (txt "Ingress: create a standard Ingress with class ")
                  ∷ (el "code" [] ((txt "kubecell") ∷ []))
                  ∷ (txt " in the child cluster, then reach it at ")
                  ∷ (el "code" [] ((txt "http://<ingress>.<vc>.apps.example.com") ∷ []))
                  ∷ (txt ".")
                  ∷ []))
              ∷ []))
          ∷ (el "h2" (str "id" "delete" ∷ []) ((txt "6. Delete it cleanly") ∷ []))
          ∷ (code_block cn copied
              (units
                "kubectl -n kubecell-system delete vc child-dev\n\n# The finalizer removes both ManifestWorks by UID, which removes the host\n# namespace, quota, policy, and the K3k cluster. Under Retain, PVs become\n# Released and data is preserved.")
              (some Language.bash) (some (units "delete.sh")) (some (units "not-prose my-6")) false
              none)
          ∷ (el "p" [] (
              (txt "Next: ")
              ∷ (el "Link" (str "href" "/docs/operations/" ∷ []) ((txt "day-2 operations") ∷ []))
              ∷ (txt ", or jump to the")
              ∷ (txt " ")
              ∷ (el "Link" (str "href" "/docs/troubleshooting/" ∷ [])
                  ((txt "troubleshooting guide") ∷ []))
              ∷ (txt " if something is not Ready.")
              ∷ []))
          ∷ [])
        none
