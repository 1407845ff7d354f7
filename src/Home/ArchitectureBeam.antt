-- ===== src/Home/ArchitectureBeam.antt =====
-- website/components/home/architecture-beam.tsx.
pub mod Refs
use kube_cell.Common.{
  ℕ, List, [], ◌∷◌, ◌++◌, Option, none, some, Text, String, units, if◌then◌else◌, length, ltb, ◌-◌,
  get_elem?,
}
use kube_cell.Dom.{
  computed, number, minus, ref, Node, text, nothing, el, str, cls, map_index, ClassNames,
}

pub record BeamNode : Type 0 where
  pub icon : String
  pub title : Text
  pub subtitle : Text

pub data BeamVariant : Type 0 where
  simple technical : BeamVariant

pub record BeamSet : Type 0 where
  pub left : List BeamNode
  pub middle : List BeamNode
  pub right : List BeamNode

-- `nodes[variant]`
abbrev pub beam_set : BeamVariant → BeamSet
beam_set simple = record {
  left =
      record {
        icon = "FileCode2";
        title = units "Your manifests";
        subtitle = units "host, quota, cluster";
      }
      ∷ record {
        icon = "CloudCog";
        title = units "KubeCell";
        subtitle = units "one management cluster";
      }
      ∷ [];
  middle =
      record { icon = "Layers"; title = units "Host setup"; subtitle = units "namespace + quota" }
      ∷ record {
        icon = "Workflow";
        title = units "Cluster creation";
        subtitle = units "control plane + storage";
      }
      ∷ [];
  right =
      record { icon = "Server"; title = units "Your host"; subtitle = units "runs the workloads" }
      ∷ record {
        icon = "Boxes";
        title = units "Your cluster";
        subtitle = units "kubectl + kubeconfig";
      }
      ∷ [];
}
beam_set technical = record {
  left =
      record {
        icon = "FileCode2";
        title = units "KubeCell CRDs";
        subtitle = units "Cell · Class · Plan · VC";
      }
      ∷ record { icon = "CloudCog"; title = units "OCM Hub"; subtitle = units "desired state only" }
      ∷ [];
  middle =
      record {
        icon = "Layers";
        title = units "Foundation Work";
        subtitle = units "namespace + quota";
      }
      ∷ record {
        icon = "Workflow";
        title = units "Instance Work";
        subtitle = units "K3k shared-mode cluster";
      }
      ∷ [];
  right =
      record { icon = "Server"; title = units "Cell host"; subtitle = units "work-agent applies" }
      ∷ record {
        icon = "Boxes";
        title = units "VirtualCluster";
        subtitle = units "child K3s API + kubelet";
      }
      ∷ [];
}

-- `variant = "simple"`
abbrev variant_or_simple : Option BeamVariant → BeamVariant
variant_or_simple none = simple
variant_or_simple (some variant) = variant

-- The boxes on a narrow screen.
abbrev narrow_boxes : BeamSet → List BeamNode
narrow_boxes set =
    set.left
    ++ (record {
      icon = "Layers";
      title = units "Host setup + cluster creation";
      subtitle = units "applied on the host";
    }
        ∷ set.right)

module _ (cn : ClassNames) where
  unfoldable pub beam_node : String → BeamNode → Option Text → Node
  beam_node node_ref item class_name =
      el "div"
        (ref "ref" node_ref
          ∷ computed "className" (
              cn (
                some (
                  units
                    "z-10 w-full max-w-56 rounded-xl border border-white/10 bg-[#080d19]/90 px-4 py-3 shadow-[0_10px_40px_-20px_rgba(47,127,224,0.8)] backdrop-blur")
                ∷ class_name
                ∷ []))
          ∷ [])
        ((el "div" (cls "flex items-center gap-2.5" ∷ []) (
            (el "span"
              (cls
                  "inline-flex h-8 w-8 shrink-0 items-center justify-center rounded-lg border border-sky-400/20 bg-sky-500/10 text-sky-300"
                ∷ [])
              ((el item.icon (cls "h-4 w-4" ∷ []) []) ∷ []))
            ∷ (el "div" (cls "min-w-0" ∷ []) (
                (el "p" (cls "truncate text-sm font-medium text-foreground" ∷ [])
                  ((text item.title) ∷ []))
                ∷ (el "p" (cls "truncate text-xs text-muted-foreground" ∷ [])
                    ((text item.subtitle) ∷ []))
                ∷ []))
            ∷ []))
          ∷ [])

  -- `<Node nodeRef={…} {...items[index]} />`; each of the lists has two boxes.
  unfoldable pub box_of : String → Option BeamNode → Node
  unfolding beam_node
  box_of node_ref none = nothing
  box_of node_ref (some item) = beam_node node_ref item none

  unfoldable pub box_at : String → List BeamNode → ℕ → Node
  unfolding box_of
  box_at node_ref items index = box_of node_ref (get_elem? items index)

  unfoldable pub architecture_beam : Option Text → Option BeamVariant → Node
  unfolding box_at
  architecture_beam class_name variant =
      let set = beam_set (variant_or_simple variant) in
      el "div" (computed "className" (cn (some (units "w-full") ∷ class_name ∷ [])) ∷ []) (
        (el "div" (cls "flex flex-col gap-3 md:hidden" ∷ []) (
          map_index
            (λ node index. el "div" (computed "key" node.title ∷ []) (
              (el "div" (cls "rounded-xl border border-white/10 bg-[#080d19]/90 px-4 py-3" ∷ []) (
                (el "div" (cls "flex items-center gap-2.5" ∷ []) (
                  (el "span"
                    (cls
                        "inline-flex h-8 w-8 shrink-0 items-center justify-center rounded-lg border border-sky-400/20 bg-sky-500/10 text-sky-300"
                      ∷ [])
                    ((el node.icon (cls "h-4 w-4" ∷ []) []) ∷ []))
                  ∷ (el "div" [] (
                      (el "p" (cls "text-sm font-medium text-foreground" ∷ [])
                        ((text node.title) ∷ []))
                      ∷ (el "p" (cls "text-xs text-muted-foreground" ∷ [])
                          ((text node.subtitle) ∷ []))
                      ∷ []))
                  ∷ []))
                ∷ []))
              ∷ (if ltb (index) (length (narrow_boxes set) - 1)
                  then (el "div"
                      (cls "mx-auto h-5 w-px bg-gradient-to-b from-sky-400/60 to-transparent" ∷ [])
                      [])
                  else nothing)
              ∷ []))
            (narrow_boxes set)))
        ∷ (el "div"
            (ref "ref" "containerRef"
              ∷ cls
                  "relative hidden w-full items-stretch justify-between gap-4 overflow-hidden rounded-2xl border border-white/5 bg-white/[0.015] px-6 py-10 sm:px-10 md:flex"
              ∷ [])
            ((el "div" (cls "pointer-events-none absolute inset-0 bg-grid-faint opacity-40" ∷ [])
                [])
              ∷ (el "div" (cls "relative z-10 flex flex-col justify-center gap-6" ∷ [])
                  ((box_at "crsRef" set.left 0) ∷ (box_at "hubRef" set.left 1) ∷ []))
              ∷ (el "div" (cls "relative z-10 flex flex-col justify-center gap-16" ∷ []) (
                  (box_at "foundationRef" set.middle 0) ∷ (box_at "instanceRef" set.middle 1) ∷ []))
              ∷ (el "div" (cls "relative z-10 flex flex-col justify-center gap-6" ∷ [])
                  ((box_at "hostRef" set.right 0) ∷ (box_at "childRef" set.right 1) ∷ []))
              ∷ (el "AnimatedBeam"
                  (ref "containerRef" "containerRef"
                    ∷ ref "fromRef" "crsRef"
                    ∷ ref "toRef" "hubRef"
                    ∷ number "duration" 4 0
                    ∷ str "gradientStartColor" "#38bdf8"
                    ∷ str "gradientStopColor" "#2f7fe0"
                    ∷ str "pathColor" "#2f7fe0"
                    ∷ number "pathOpacity" 15 2
                    ∷ [])
                  [])
              ∷ (el "AnimatedBeam"
                  (ref "containerRef" "containerRef"
                    ∷ ref "fromRef" "hubRef"
                    ∷ ref "toRef" "foundationRef"
                    ∷ number "duration" 5 0
                    ∷ number "delay" 4 1
                    ∷ str "gradientStartColor" "#2f7fe0"
                    ∷ str "gradientStopColor" "#8b5cf6"
                    ∷ str "pathColor" "#2f7fe0"
                    ∷ number "pathOpacity" 15 2
                    ∷ [])
                  [])
              ∷ (el "AnimatedBeam"
                  (ref "containerRef" "containerRef"
                    ∷ ref "fromRef" "hubRef"
                    ∷ ref "toRef" "instanceRef"
                    ∷ number "duration" 5 0
                    ∷ number "delay" 9 1
                    ∷ minus "curvature" 60 0
                    ∷ str "gradientStartColor" "#2f7fe0"
                    ∷ str "gradientStopColor" "#8b5cf6"
                    ∷ str "pathColor" "#2f7fe0"
                    ∷ number "pathOpacity" 15 2
                    ∷ [])
                  [])
              ∷ (el "AnimatedBeam"
                  (ref "containerRef" "containerRef"
                    ∷ ref "fromRef" "foundationRef"
                    ∷ ref "toRef" "hostRef"
                    ∷ number "duration" 4 0
                    ∷ number "delay" 6 1
                    ∷ str "gradientStartColor" "#38bdf8"
                    ∷ str "gradientStopColor" "#22d3ee"
                    ∷ str "pathColor" "#2f7fe0"
                    ∷ number "pathOpacity" 15 2
                    ∷ [])
                  [])
              ∷ (el "AnimatedBeam"
                  (ref "containerRef" "containerRef"
                    ∷ ref "fromRef" "instanceRef"
                    ∷ ref "toRef" "childRef"
                    ∷ number "duration" 4 0
                    ∷ number "delay" 11 1
                    ∷ number "curvature" 60 0
                    ∷ str "gradientStartColor" "#8b5cf6"
                    ∷ str "gradientStopColor" "#38bdf8"
                    ∷ str "pathColor" "#2f7fe0"
                    ∷ number "pathOpacity" 15 2
                    ∷ [])
                  [])
              ∷ (el "AnimatedBeam"
                  (ref "containerRef" "containerRef"
                    ∷ ref "fromRef" "hostRef"
                    ∷ ref "toRef" "childRef"
                    ∷ number "duration" 35 1
                    ∷ number "delay" 14 1
                    ∷ str "gradientStartColor" "#22d3ee"
                    ∷ str "gradientStopColor" "#2f7fe0"
                    ∷ str "pathColor" "#2f7fe0"
                    ∷ number "pathOpacity" 15 2
                    ∷ [])
                  [])
              ∷ []))
        ∷ [])
