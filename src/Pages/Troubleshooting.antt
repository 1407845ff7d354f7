-- ===== src/Pages/Troubleshooting.antt =====
-- website/app/docs/troubleshooting/page.tsx.
use kube_cell.Common.{Bool, false, List, [], ◌∷◌, none, some, Text, units, map}
use kube_cell.Dom.{computed, Node, text, el, txt, str, cls, ClassNames}
use kube_cell.Components.Callout.{callout, prose, tip}
use kube_cell.Components.CodeBlock.{code_block}
use kube_cell.Highlight.Types.{Language}
use kube_cell.Site.Metadata.{Metadata, build_metadata}

unfoldable pub metadata : Metadata
unfolding build_metadata
metadata = build_metadata (record {
  title = units "Troubleshooting";
  description =
      units
        "Symptom-first KubeCell troubleshooting: Cell not Ready, ManifestWork not Applied, child API unreachable, PVCs not binding, accelerators missing, and ingress failures.";
  path = units "/docs/troubleshooting/";
  keywords = some (
      units "KubeCell troubleshooting"
      ∷ units "Cell not ready"
      ∷ units "ManifestWork not applied"
      ∷ units "child cluster API unreachable"
      ∷ units "TopoLVM PVC pending"
      ∷ []);
  type = none;
})

abbrev pub walk_chain : Text
walk_chain =
    units
      "# 1. Management plane: what does the controller believe?\nkubectl -n kubecell-system get vc <vc> -o yaml\nkubectl -n kubecell-system describe vc <vc>\n\n# 2. OCM: did the work get applied?\nkubectl get manifestwork -n <managed-cluster-namespace>\nkubectl get manifestwork -n <managed-cluster-namespace> <work> -o yaml\n\n# 3. Host: is the work-agent healthy and did it land?\nKUBECONFIG=<host-kubeconfig> kubectl -n open-cluster-management-agent \\\n  get pods\nKUBECONFIG=<host-kubeconfig> kubectl -n <vc>-ns get all,quota,limitrange,netpol\n\n# 4. Child: is the control plane up and reachable?\nKUBECONFIG=<host-kubeconfig> kubectl -n k3k-<vc> get pods,svc,pvc"

abbrev pub rows : List (Text × Text × Text)
rows =
    (
      units "Cell not Ready",
      units
          "Check in order: OCM Joined/Available, then managed-cluster-lease freshness, then Cell conditions. Available=True alone is not trusted.",
      units
          "If the lease is stale, treat the host as offline and stop creating child clusters on it.",
    )
    ∷ (
      units "Cell Degraded but OCM looks fine",
      units "Lease freshness or an inventory source failed.",
      units
          "Inspect conditions: ProviderReady and InventoryFresh. Fix the reported subsystem before anything else.",
    )
    ∷ (
      units "Work not Applied",
      units "ManifestWork status, then host work-agent, then the target namespace.",
      units
          "Check namespace quota and admission rejections — a rejected manifest will retry forever.",
    )
    ∷ (
      units "VirtualCluster stuck Provisioning",
      units
          "Foundation Work applied but Instance Work blocked, or K3k cannot schedule its server Pod.",
      units "Check K3k controller health, server Pod events, and TopoLVM PVC binding on the host.",
    )
    ∷ (
      units "Child API unreachable",
      units "status.endpoint versus the published Secret, then host NodePort Service.",
      units
          "Re-fetch the Secret after endpoint changes; verify the NodePort is allocated and fresh.",
    )
    ∷ (
      units "Child PVC Pending",
      units "Topology labels missing or TopoLVM has no free capacity.",
      units
          "Re-apply topology.topolvm.io/node and topology.kubernetes.io/zone, then check lvmd reporting.",
    )
    ∷ (
      units "Zero accelerators visible",
      units "Device Plugin registration mismatch.",
      units
          "Read plugin Pod logs on the host before changing any declaration; observed allocatable wins.",
    )
    ∷ (
      units "CapabilityMismatch condition",
      units "Cell declares more than the host allocates.",
      units
          "Align the machine profile with the observed resource key and capacity, then re-observe.",
    )
    ∷ (
      units "Tenant Pod rejected",
      units "Privileged access or hostPath in the manifest.",
      units "This is intended. Use the rejection hint and switch to a PVC on the storage class.",
    )
    ∷ (
      units "Ingress returns 503",
      units "Mirrored Endpoints carry a port name that does not match.",
      units
          "The controller strips port names; for older clusters clear the endpoint port name to an empty string.",
    )
    ∷ (
      units "Image pull failures",
      units "Registry reachability or OCI-archive transfer problems.",
      units "Fix mirrors first; helpers live in hack/image/. Record digests and architectures.",
    )
    ∷ (
      units "Volumes remain after deletion",
      units "Orphaned logical volumes once the child API is gone.",
      units "Remove only cluster-created volumes with lvremove; leave the volume group intact.",
    )
    ∷ []

-- `copied` is the state of the copy buttons.
module _ (cn : ClassNames) where
  unfoldable pub troubleshooting_page : Bool → Node
  unfolding prose callout
  troubleshooting_page copied =
      prose cn
        ((el "p" (cls "font-mono text-xs uppercase tracking-[0.2em] text-sky-400" ∷ [])
            ((txt "Guides") ∷ []))
          ∷ (el "h1"
              (cls "mt-3 text-3xl font-semibold tracking-tight text-foreground sm:text-4xl" ∷ [])
              ((txt "Troubleshooting") ∷ []))
          ∷ (el "p" (cls "mt-5 text-base leading-7 text-muted-foreground" ∷ []) (
              (txt
                "KubeCell spans four systems — the management plane, OCM, the host cluster, and the child K3s cluster. Almost every failure is diagnosed by walking that chain in order instead of guessing.")
              ∷ []))
          ∷ (el "h2" (str "id" "chain" ∷ []) ((txt "Walk the chain") ∷ []))
          ∷ (code_block cn copied walk_chain (some Language.bash) (some (units "diagnose.sh"))
              (some (units "not-prose my-6")) false none)
          ∷ (callout cn (some tip) (some (units "One rule that saves time"))
              ((txt
                  "Never edit host state by hand to \"unstick\" a child cluster. Fix the input (the manifest, the class, the inventory source) and let reconciliation re-render from the snapshot. Manual edits are overwritten on the next reconcile and hide the real cause.")
                ∷ [])
              none)
          ∷ (el "h2" (str "id" "symptoms" ∷ []) ((txt "Symptom reference") ∷ []))
          ∷ (el "div" (cls "not-prose my-6 overflow-hidden rounded-xl border border-white/10" ∷ [])
              ((el "div" (cls "overflow-x-auto" ∷ []) (
                  (el "table" (cls "w-full min-w-[760px] border-collapse text-left text-sm" ∷ []) (
                    (el "thead" [] (
                      (el "tr" (cls "bg-white/[0.03]" ∷ []) (
                        (el "th" (cls "px-4 py-3 font-medium text-muted-foreground" ∷ [])
                          ((txt "Symptom") ∷ []))
                        ∷ (el "th" (cls "px-4 py-3 font-medium text-muted-foreground" ∷ [])
                            ((txt "Where to look") ∷ []))
                        ∷ (el "th" (cls "px-4 py-3 font-medium text-muted-foreground" ∷ [])
                            ((txt "Action") ∷ []))
                        ∷ []))
                      ∷ []))
                    ∷ (el "tbody" (cls "text-muted-foreground" ∷ []) (
                        map
                          (λ row.
                            el "tr" (computed "key" row.0 ∷ cls "border-t border-white/5" ∷ []) (
                              (el "td" (cls "px-4 py-3 text-foreground/85" ∷ [])
                                ((text row.0) ∷ []))
                              ∷ (el "td" (cls "px-4 py-3" ∷ []) ((text row.1) ∷ []))
                              ∷ (el "td" (cls "px-4 py-3" ∷ []) ((text row.2) ∷ []))
                              ∷ []))
                          rows))
                    ∷ []))
                  ∷ []))
                ∷ []))
          ∷ (el "h2" (str "id" "plan-rejected" ∷ []) ((txt "A Plan was rejected — now what?") ∷ []))
          ∷ (el "ol" [] (
              (el "li" [] (
                (txt "Read ")
                ∷ (el "code" [] ((txt "status.checks") ∷ []))
                ∷ (txt ". Each failed item names the resource that could not be satisfied.")
                ∷ []))
              ∷ (el "li" [] (
                  (txt "Check ")
                  ∷ (el "code" [] ((txt "expiresAt") ∷ []))
                  ∷ (txt ". If the conclusion expired, re-apply the Plan for a fresh evaluation.")
                  ∷ []))
              ∷ (el "li" [] (
                  (txt
                    "If the missing resource is storage or accelerators, verify that the Cell inventory is fresh before concluding the host is full.")
                  ∷ []))
              ∷ (el "li" [] (
                  (txt
                    "Adjust the request or switch Cells. Do not create the VirtualCluster \"to see what happens\" — the controller rechecks and blocks anyway.")
                  ∷ []))
              ∷ []))
          ∷ (el "h2" (str "id" "collect" ∷ []) ((txt "Collecting evidence for an issue") ∷ []))
          ∷ (el "ul" [] (
              (el "li" []
                ((txt "Cell and VirtualCluster YAML (including status) with timestamps.") ∷ []))
              ∷ (el "li" [] ((txt "ManifestWork status for the affected child cluster.") ∷ []))
              ∷ (el "li" []
                  ((txt "Host events for the child namespace, plus K3k server Pod logs.") ∷ []))
              ∷ (el "li" []
                  ((txt "Observed versions from Cell status versus the pinned release.") ∷ []))
              ∷ (el "li" [] ((txt "Reproduction steps and expected versus actual behavior.") ∷ []))
              ∷ []))
          ∷ (el "p" [] (
              (txt "File bugs at")
              ∷ (txt " ")
              ∷ (el "a" (str "href" "https://github.com/taosher/KubeCell/issues" ∷ [])
                  ((txt "github.com/taosher/KubeCell/issues") ∷ []))
              ∷ (txt " ")
              ∷ (txt "using the structure above. See also the")
              ∷ (txt " ")
              ∷ (el "Link" (str "href" "/docs/host-onboarding/" ∷ [])
                  ((txt "host onboarding troubleshooting table") ∷ []))
              ∷ (txt " for host-side symptoms.")
              ∷ []))
          ∷ [])
        none
