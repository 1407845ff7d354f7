-- ===== src/Pages/Security.antt =====
-- website/app/docs/security/page.tsx.
use kube_cell.Common.{Bool, false, [], ◌∷◌, none, some, Text, units}
use kube_cell.Dom.{Node, el, txt, str, cls, ClassNames}
use kube_cell.Components.Callout.{callout, prose, warning}
use kube_cell.Components.CodeBlock.{code_block}
use kube_cell.Highlight.Types.{Language}
use kube_cell.Site.Metadata.{Metadata, build_metadata}

unfoldable pub metadata : Metadata
unfolding build_metadata
metadata = build_metadata (record {
  title = units "Security and isolation";
  description =
      units
        "The KubeCell isolation model: per-child host namespaces, ResourceQuota and LimitRange enforcement, default-deny NetworkPolicy, admission rejection of privileged workloads and hostPath volumes, and the credential model.";
  path = units "/docs/security/";
  keywords = some (
      units "KubeCell security"
      ∷ units "Kubernetes multi-tenancy"
      ∷ units "ResourceQuota isolation"
      ∷ units "NetworkPolicy child cluster"
      ∷ units "hostPath rejection"
      ∷ []);
  type = none;
})

abbrev pub rejection : Text
rejection =
    units
      "# What the host admission layer rejects in tenant workloads\n#   - privileged containers\n#   - host namespaces (hostNetwork, hostPID, hostIPC)\n#   - hostPath volumes (with a replacement hint pointing at the storage class)\n#   - host device access outside the declared extended resources\n#\n# What it does not do: inspect container images, enforce vendor runtimes,\n# or act as an adversarial sandbox. See \"Trust model\" below."

abbrev pub quota_example : Text
quota_example =
    units
      "apiVersion: v1\nkind: ResourceQuota\nmetadata:\n  name: kubecell-<vc>-quota\n  namespace: <vc>-ns\nspec:\n  hard:\n    requests.cpu: \"4\"\n    limits.cpu: \"4\"\n    requests.memory: 8Gi\n    limits.memory: 8Gi\n    requests.huawei.com/Ascend910: \"2\"\n    limits.huawei.com/Ascend910: \"2\""

-- `copied` is the state of the copy buttons.
module _ (cn : ClassNames) where
  unfoldable pub security_page : Bool → Node
  unfolding prose callout
  security_page copied =
      prose cn
        ((el "p" (cls "font-mono text-xs uppercase tracking-[0.2em] text-sky-400" ∷ [])
            ((txt "Guides") ∷ []))
          ∷ (el "h1"
              (cls "mt-3 text-3xl font-semibold tracking-tight text-foreground sm:text-4xl" ∷ [])
              ((txt "Security and isolation") ∷ []))
          ∷ (el "p" (cls "mt-5 text-base leading-7 text-muted-foreground" ∷ []) (
              (txt
                "KubeCell gives every child cluster a real API server without giving tenants control of the host. Isolation is enforced by Kubernetes primitives on the host, plus a small admission layer that closes the obvious escalation paths.")
              ∷ []))
          ∷ (callout cn (some warning) (some (units "Trust model"))
              ((txt
                  "This is not strong-adversary multi-tenancy. Developer credentials are child-cluster admin kubeconfigs, and the network boundary assumes trusted or at least accountable tenants. Do not use KubeCell to host untrusted third-party code.")
                ∷ [])
              none)
          ∷ (el "h2" (str "id" "layers" ∷ []) ((txt "The five isolation layers") ∷ []))
          ∷ (el "ol" [] (
              (el "li" [] (
                (el "strong" [] ((txt "Dedicated host namespace.") ∷ []))
                ∷ (txt
                    " Each child cluster maps to one host namespace with policy labels and annotations. Reflected Pods and PVCs land there, and nothing else does.")
                ∷ []))
              ∷ (el "li" [] (
                  (el "strong" [] ((txt "ResourceQuota.") ∷ []))
                  ∷ (txt
                      " The VirtualNodeClass entitlement becomes a hard quota on the host namespace. Requests and limits are both enforced, so a child cluster cannot overcommit the host.")
                  ∷ []))
              ∷ (el "li" [] (
                  (el "strong" [] ((txt "LimitRange.") ∷ []))
                  ∷ (txt
                      " A default of 100m CPU and 256Mi memory applies to containers that declare nothing, which prevents platform sidecars in the child cluster from landing unschedulable.")
                  ∷ []))
              ∷ (el "li" [] (
                  (el "strong" [] ((txt "NetworkPolicy.") ∷ []))
                  ∷ (txt
                      " Cross-namespace traffic is denied by default. Only the child API server path and required platform flows are allowed.")
                  ∷ []))
              ∷ (el "li" [] (
                  (el "strong" [] ((txt "Admission rejection.") ∷ []))
                  ∷ (txt
                      " Privileged containers, host namespaces, and hostPath volumes are rejected in tenant workloads before the host ever schedules them.")
                  ∷ []))
              ∷ []))
          ∷ (code_block cn copied quota_example (some Language.yaml) (some (units "quota.yaml"))
              (some (units "not-prose my-6")) false none)
          ∷ (code_block cn copied rejection (some Language.text) (some (units "admission.txt"))
              (some (units "not-prose my-6")) false none)
          ∷ (el "h2" (str "id" "management" ∷ []) ((txt "Management-plane boundary") ∷ []))
          ∷ (el "p" [] (
              (txt "The controller is intentionally weak by design. It can write OCM ")
              ∷ (el "code" [] ((txt "ManifestWork") ∷ []))
              ∷ (txt " ")
              ∷ (txt
                  "objects and read hosts through the OCM cluster proxy. It does not hold host kubeconfigs and does not open connections to host APIs.")
              ∷ []))
          ∷ (el "ul" [] (
              (el "li" [] (
                (txt
                  "Every host-side change is a declarative work object, which makes changes reviewable and retries idempotent.")
                ∷ []))
              ∷ (el "li" [] (
                  (txt
                    "A compromised controller can disrupt the fleet, but it cannot silently edit host state without leaving ManifestWork artifacts.")
                  ∷ []))
              ∷ (el "li" [] (
                  (txt "Host onboarding requires a manual ")
                  ∷ (el "code" [] ((txt "clusteradm accept") ∷ []))
                  ∷ (txt ". KubeCell never auto-approves a ManagedCluster.")
                  ∷ []))
              ∷ []))
          ∷ (el "h2" (str "id" "accelerators" ∷ []) ((txt "Accelerator isolation") ∷ []))
          ∷ (el "ul" [] (
              (el "li" [] (
                (txt
                  "Extended resources are allocated as whole cards: request equals limit, integer values. Sharing one accelerator between child clusters is not supported.")
                ∷ []))
              ∷ (el "li" [] (
                  (txt
                    "Observed allocatable is the source of truth. A Cell declaration that exceeds observed capacity produces a ")
                  ∷ (el "code" [] ((txt "CapabilityMismatch") ∷ []))
                  ∷ (txt " condition instead of oversubscription.")
                  ∷ []))
              ∷ (el "li" [] (
                  (txt
                    "KubeCell does not manage vendor runtimes, CDI, or Device Plugin health. Those remain host platform responsibilities, and diagnostics go through host Pod status and logs.")
                  ∷ []))
              ∷ []))
          ∷ (el "h2" (str "id" "credentials" ∷ []) ((txt "Credentials") ∷ []))
          ∷ (el "ul" [] (
              (el "li" [] (
                (txt
                  "Each VirtualCluster always publishes an admin kubeconfig to a management-plane Secret. There is no credential-less mode.")
                ∷ []))
              ∷ (el "li" [] (
                  (txt
                    "Treat the Secret as cluster-admin material for the child cluster. Store it in your secret manager and use mode 600 for files.")
                  ∷ []))
              ∷ (el "li" [] (
                  (txt
                    "Revocation is deletion: removing the VirtualCluster removes the child API and its credentials. Rotate by recreating the child cluster.")
                  ∷ []))
              ∷ []))
          ∷ (el "h2" (str "id" "storage" ∷ []) ((txt "Storage and data") ∷ []))
          ∷ (el "ul" [] (
              (el "li" [] (
                (txt
                  "Child volumes live on host TopoLVM logical volumes. Deleting a child cluster does not automatically destroy data under the ")
                ∷ (el "code" [] ((txt "Retain") ∷ []))
                ∷ (txt " policy.")
                ∷ []))
              ∷ (el "li" [] (
                  (txt "Reclaim is a deliberate operator action (")
                  ∷ (el "code" [] ((txt "lvremove") ∷ []))
                  ∷ (txt " for cluster-created volumes only). Never remove the volume group.")
                  ∷ []))
              ∷ (el "li" [] (
                  (el "code" [] ((txt "hostPath") ∷ []))
                  ∷ (txt
                      " is rejected because it would let a child workload read host data outside its namespace boundary.")
                  ∷ []))
              ∷ []))
          ∷ (el "h2" (str "id" "reporting" ∷ []) ((txt "Reporting a security issue") ∷ []))
          ∷ (el "p" [] (
              (txt
                "Do not open a public issue for a suspected vulnerability. Contact the maintainers through the repository's security reporting channel and include reproduction steps, the affected version, and the observed versus expected behavior.")
              ∷ []))
          ∷ (el "p" [] (
              (txt "See also: ")
              ∷ (el "Link" (str "href" "/architecture/" ∷ []) ((txt "technical principles") ∷ []))
              ∷ (txt " for the control flow and")
              ∷ (txt " ")
              ∷ (el "Link" (str "href" "/docs/operations/" ∷ []) ((txt "day-2 operations") ∷ []))
              ∷ (txt " for credential handling routines.")
              ∷ []))
          ∷ [])
        none
