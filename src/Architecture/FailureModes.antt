-- ===== src/Architecture/FailureModes.antt =====
-- website/components/architecture/failure-modes.tsx.
use kube_cell.Common.{List, [], ◌∷◌, Text, String, units, if◌then◌else◌, ◌==◌}
use kube_cell.Dom.{computed, number, Node, text, nothing, el, txt, str, cls, map_index}

pub record Failure : Type 0 where
  pub icon : String
  pub title : Text
  pub symptom : Text
  pub action : Text

abbrev pub failures : List Failure
failures =
    record {
      icon = "Clock";
      title = units "Host lease goes stale";
      symptom = units "Cell reports Degraded even though OCM still says Available.";
      action =
          units
            "Trust the lease, not the condition. Check klusterlet health and node time skew before creating new child clusters.";
    }
    ∷ record {
      icon = "Database";
      title = units "Storage capacity unknown";
      symptom = units "storageInventory.freeCapacityKnown is false, or the observation is old.";
      action =
          units
            "No feasibility conclusion is trustworthy. Fix TopoLVM/lvmd reporting and wait for a fresh Cell observation.";
    }
    ∷ record {
      icon = "ServerCrash";
      title = units "Work not Applied";
      symptom = units "A VirtualCluster stays in Provisioning and never becomes Ready.";
      action =
          units
            "Walk the chain: the work status in the hub, the work-agent on the host, then the target namespace quota and any admission rejections.";
    }
    ∷ record {
      icon = "FileWarning";
      title = units "Child API unreachable";
      symptom = units "The kubeconfig exists but connections time out.";
      action =
          units
            "Compare status.endpoint with the published Secret, then check K3k server Pods, the NodePort Service, and TopoLVM PVCs on the host.";
    }
    ∷ record {
      icon = "AlertTriangle";
      title = units "Capability mismatch";
      symptom = units "A Cell declares more accelerator capacity than the host actually allocates.";
      action =
          units
            "Observed allocatable always wins. Align the machine profile declaration with the Device Plugin registration, then re-observe.";
    }
    ∷ record {
      icon = "ShieldAlert";
      title = units "Tenant workload rejected";
      symptom = units "Admission denies a child Pod for privileged access or hostPath volumes.";
      action =
          units
            "This is expected. Use the rejection hint to pick a supported replacement, such as a PVC on the TopoLVM storage class.";
    }
    ∷ []

unfoldable pub failure_modes : Node
failure_modes = el "div" (cls "grid gap-4 md:grid-cols-2 lg:grid-cols-3" ∷ []) (
    map_index
      (λ failure index.
        el "Card"
          (computed "key" failure.title
            ∷ cls "relative h-full overflow-hidden border-white/10 bg-white/[0.02]"
            ∷ [])
          ((if index == 1
              then (el "BorderBeam"
                  (number "size" 140 0
                    ∷ number "duration" 9 0
                    ∷ str "colorFrom" "#f59e0b"
                    ∷ str "colorTo" "#ef4444"
                    ∷ [])
                  [])
              else nothing)
            ∷ (el "CardHeader" [] (
                (el "span"
                  (cls
                      "inline-flex h-10 w-10 items-center justify-center rounded-xl border border-amber-400/20 bg-amber-500/10 text-amber-300"
                    ∷ [])
                  ((el failure.icon (cls "h-5 w-5" ∷ []) []) ∷ []))
                ∷ (el "CardTitle" (cls "mt-3 text-base" ∷ []) ((text failure.title) ∷ []))
                ∷ []))
            ∷ (el "CardContent" (cls "space-y-3 text-sm leading-6" ∷ []) (
                (el "p" (cls "text-muted-foreground" ∷ []) (
                  (el "span" (cls "font-medium text-foreground/90" ∷ []) ((txt "Symptom: ") ∷ []))
                  ∷ (text failure.symptom)
                  ∷ []))
                ∷ (el "p" (cls "text-muted-foreground" ∷ []) (
                    (el "span" (cls "font-medium text-foreground/90" ∷ []) ((txt "Action: ") ∷ []))
                    ∷ (text failure.action)
                    ∷ []))
                ∷ []))
            ∷ []))
      failures)
