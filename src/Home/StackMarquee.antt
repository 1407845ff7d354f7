-- ===== src/Home/StackMarquee.antt =====
-- website/components/home/stack-marquee.tsx.
use kube_cell.Common.{true, List, [], ◌∷◌, Text, units, map}
use kube_cell.Dom.{computed, flag, Node, text, el, txt, cls}

unfoldable stack : List Text
stack =
    units "Kubernetes"
    ∷ units "K3s"
    ∷ units "kubectl"
    ∷ units "Helm"
    ∷ units "Traefik"
    ∷ units "CoreDNS"
    ∷ units "TopoLVM"
    ∷ units "LVM"
    ∷ units "NVIDIA"
    ∷ units "Ascend 910B"
    ∷ units "ARM64"
    ∷ units "x86_64"
    ∷ []

unfoldable pub stack_marquee : Node
unfolding stack
stack_marquee = el "div" (cls "relative border-y border-white/5 bg-white/[0.015] py-8" ∷ []) (
    (el "p"
      (cls "mb-5 text-center font-mono text-xs uppercase tracking-[0.24em] text-muted-foreground"
        ∷ [])
      ((txt "Standard Kubernetes tooling, no new workflow to learn") ∷ []))
    ∷ (el "div" (cls "relative" ∷ []) (
        (el "Marquee" (flag "pauseOnHover" true ∷ cls "[--duration:45s] [--gap:2.5rem]" ∷ []) (
          map
            (λ name.
              el "span"
                (computed "key" name
                  ∷ cls
                      "rounded-full border border-white/10 bg-white/[0.03] px-4 py-1.5 text-sm text-muted-foreground"
                  ∷ [])
                ((text name) ∷ []))
            stack))
        ∷ (el "div"
            (cls
                "pointer-events-none absolute inset-y-0 left-0 w-24 bg-gradient-to-r from-background to-transparent"
              ∷ [])
            [])
        ∷ (el "div"
            (cls
                "pointer-events-none inset-y-0 right-0 absolute w-24 bg-gradient-to-l from-background to-transparent"
              ∷ [])
            [])
        ∷ []))
    ∷ [])
