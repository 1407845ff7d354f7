-- ===== src/Architecture/OrbitingStack.antt =====
-- website/components/architecture/orbiting-stack.tsx.
use kube_cell.Common.{true, false, List, [], ◌∷◌, Text, String, units, map}
use kube_cell.Dom.{number, flag, Node, text, el, txt, cls}

pub record OrbitItem : Type 0 where
  pub label : Text
  pub icon : String

abbrev pub inner : List OrbitItem
inner =
    record { label = units "K3k"; icon = "BoxesIcon" }
    ∷ record { label = units "TopoLVM"; icon = "HardDrive" }
    ∷ record { label = units "Traefik"; icon = "Route" }
    ∷ record { label = units "Device Plugin"; icon = "Cpu" }
    ∷ []

abbrev pub outer : List OrbitItem
outer =
    record { label = units "K3s"; icon = "Boxes" }
    ∷ record { label = units "OCM"; icon = "Network" }
    ∷ record { label = units "CNI / CoreDNS"; icon = "Network" }
    ∷ record { label = units "LVM"; icon = "Database" }
    ∷ record { label = units "RuntimeClass"; icon = "Gauge" }
    ∷ []

unfoldable pub pill : Text → String → Node
pill label icon =
    el "span"
      (cls
          "inline-flex items-center gap-1.5 whitespace-nowrap rounded-full border border-white/10 bg-[#080d19] px-3 py-1.5 text-xs text-foreground shadow-[0_6px_24px_-12px_rgba(47,127,224,0.9)]"
        ∷ [])
      ((el icon (cls "h-3.5 w-3.5 text-sky-300" ∷ []) []) ∷ (text label) ∷ [])

unfoldable pub orbiting_stack : Node
unfolding pill
orbiting_stack =
    el "div"
      (cls
          "relative flex h-[30rem] w-full items-center justify-center overflow-hidden rounded-2xl border border-white/5 bg-white/[0.015]"
        ∷ [])
      ((el "div" (cls "pointer-events-none absolute inset-0 bg-grid-faint opacity-30" ∷ []) [])
        ∷ (el "div"
            (cls "pointer-events-none absolute h-72 w-72 rounded-full bg-sky-500/10 blur-[80px]"
              ∷ [])
            [])
        ∷ (el "div"
            (cls
                "z-10 flex h-24 w-24 flex-col items-center justify-center gap-1 rounded-2xl border border-sky-400/30 bg-[#070c17] text-center shadow-[0_0_60px_-20px_rgba(47,127,224,0.9)]"
              ∷ [])
            ((el "span" (cls "font-mono text-[10px] uppercase tracking-widest text-sky-400" ∷ [])
                ((txt "Cell host") ∷ []))
              ∷ (el "span" (cls "text-sm font-semibold text-foreground" ∷ [])
                  ((txt "pinned baseline") ∷ []))
              ∷ []))
        ∷ (el "OrbitingCircles"
            (number "radius" 132 0
              ∷ number "duration" 24 0
              ∷ number "iconSize" 30 0
              ∷ flag "path" false
              ∷ [])
            (map (λ item. pill item.label item.icon) inner))
        ∷ (el "OrbitingCircles"
            (number "radius" 208 0
              ∷ number "duration" 38 0
              ∷ flag "reverse" true
              ∷ number "iconSize" 30 0
              ∷ flag "path" false
              ∷ [])
            (map (λ item. pill item.label item.icon) outer))
        ∷ [])
