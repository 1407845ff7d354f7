-- ===== src/Home/Workflow.antt =====
-- website/components/home/workflow.tsx.
use kube_cell.Common.{
  true, List, [], ◌∷◌, none, some, Text, String, units, if◌then◌else◌, length, ltb, ◌*◌, ◌-◌,
}
use kube_cell.Dom.{
  computed, number, flag, Node, text, nothing, el, fragment_of, txt, cls, map_index, ClassNames,
}
use kube_cell.Components.Section.{section_heading, center}

pub record WorkflowStep : Type 0 where
  pub icon : String
  pub title : Text
  pub description : Text

abbrev pub steps : List WorkflowStep
steps =
    record {
      icon = "ClipboardCheck";
      title = units "Check before you change anything";
      description =
          units
            "A read-only preflight inspects both clusters and stops at the first problem. Nothing is modified until you pass --apply and --confirm.";
    }
    ∷ record {
      icon = "DownloadCloud";
      title = units "Add your host";
      description =
          units
            "Register the machine and approve it manually — a deliberate safety gate, so a new host can never join silently.";
    }
    ∷ record {
      icon = "Wrench";
      title = units "Let KubeCell prepare the host";
      description =
          units
            "Storage, ingress, and accelerator support are installed at tested versions. You do not assemble the stack yourself.";
    }
    ∷ record {
      icon = "Rocket";
      title = units "Create the developer cluster";
      description =
          units
            "Pick the host and a quota tier, apply an eight-line manifest, and collect the kubeconfig from the resource status.";
    }
    ∷ []

module _ (cn : ClassNames) where
  unfoldable pub workflow : Node
  unfolding section_heading
  workflow = el "section" (cls "relative py-20 sm:py-24" ∷ []) (
      (el "div" (cls "container-page" ∷ []) (
        (section_heading cn (some (units "How it works")) (txt "Four commands to a running cluster")
          (some (
            txt
              "Humans run four commands. KubeCell handles the rest: what to install, which versions, and how to keep every host consistent."))
          center none)
        ∷ (el "div" (cls "mt-14 grid gap-12 lg:grid-cols-2 lg:items-center" ∷ []) (
            (el "div" (cls "space-y-6" ∷ []) (
              (fragment_of (
                map_index
                  (λ step index.
                    el "BlurFade"
                      (computed "key" step.title
                        ∷ number "delay" (index * 8) 2
                        ∷ flag "inView" true
                        ∷ [])
                      ((el "div" (cls "flex gap-4" ∷ []) (
                          (el "div" (cls "flex flex-col items-center" ∷ []) (
                            (el "span"
                              (cls
                                  "inline-flex h-10 w-10 shrink-0 items-center justify-center rounded-xl border border-sky-400/20 bg-sky-500/10 text-sky-300"
                                ∷ [])
                              ((el step.icon (cls "h-5 w-5" ∷ []) []) ∷ []))
                            ∷ (if ltb (index) (length steps - 1)
                                then (el "span"
                                    (cls
                                        "mt-2 h-full w-px flex-1 bg-gradient-to-b from-sky-400/30 to-transparent"
                                      ∷ [])
                                    [])
                                else nothing)
                            ∷ []))
                          ∷ (el "div" (cls "pb-2" ∷ []) (
                              (el "h3" (cls "text-base font-semibold text-foreground" ∷ [])
                                ((text step.title) ∷ []))
                              ∷ (el "p" (cls "mt-1 text-sm leading-6 text-muted-foreground" ∷ [])
                                  ((text step.description) ∷ []))
                              ∷ []))
                          ∷ []))
                        ∷ []))
                  steps))
              ∷ (el "BlurFade" (number "delay" 4 1 ∷ flag "inView" true ∷ []) (
                  (el "div"
                    (cls
                        "flex items-start gap-3 rounded-xl border border-emerald-400/15 bg-emerald-500/[0.06] p-4"
                      ∷ [])
                    ((el "CheckCircle2" (cls "mt-0.5 h-4 w-4 shrink-0 text-emerald-400" ∷ []) [])
                      ∷ (el "p" (cls "text-sm leading-6 text-emerald-100/80" ∷ []) (
                          (txt
                            "The first cluster usually takes 10–20 minutes while container images are pulled onto the host. Clusters created afterwards start much faster.")
                          ∷ []))
                      ∷ []))
                  ∷ []))
              ∷ []))
            ∷ (el "BlurFade" (number "delay" 15 2 ∷ flag "inView" true ∷ []) (
                (el "Terminal"
                  (flag "sequence" true
                    ∷ cls "max-w-none bg-[#070b14] shadow-[0_30px_80px_-40px_rgba(47,127,224,0.6)]"
                    ∷ [])
                  ((el "TypingAnimation"
                      (number "delay" 0 0 ∷ cls "font-mono text-xs text-slate-300" ∷ [])
                      ((txt "$ go run ./cmd/kubecell-installer doctor host --bundle ./release")
                        ∷ []))
                    ∷ (el "AnimatedSpan"
                        (number "delay" 400 0 ∷ cls "font-mono text-xs text-emerald-400" ∷ [])
                        ((txt "✓ host reachable and healthy") ∷ []))
                    ∷ (el "AnimatedSpan"
                        (number "delay" 300 0 ∷ cls "font-mono text-xs text-emerald-400" ∷ [])
                        ((txt "✓ machine profile detected: ascend-910b") ∷ []))
                    ∷ (el "AnimatedSpan"
                        (number "delay" 300 0 ∷ cls "font-mono text-xs text-emerald-400" ∷ [])
                        ((txt "✓ storage available: 2.1 TiB") ∷ []))
                    ∷ (el "AnimatedSpan"
                        (number "delay" 300 0 ∷ cls "font-mono text-xs text-emerald-400" ∷ [])
                        ((txt "✓ accelerators detected: 8 × Ascend 910B") ∷ []))
                    ∷ (el "TypingAnimation"
                        (number "delay" 700 0 ∷ cls "font-mono text-xs text-slate-300" ∷ [])
                        ((txt "$ clusteradm join --cluster-name cell1 --wait") ∷ []))
                    ∷ (el "AnimatedSpan"
                        (number "delay" 500 0 ∷ cls "font-mono text-xs text-sky-300" ∷ [])
                        ((txt "→ host cell1 registered and waiting for approval") ∷ []))
                    ∷ (el "TypingAnimation"
                        (number "delay" 700 0 ∷ cls "font-mono text-xs text-slate-300" ∷ [])
                        ((txt "$ kubectl apply -f virtualcluster.yaml") ∷ []))
                    ∷ (el "AnimatedSpan"
                        (number "delay" 500 0 ∷ cls "font-mono text-xs text-amber-300" ∷ [])
                        ((txt "→ preflight: accepted (cpu, memory, 2 × Ascend 910B, storage)")
                          ∷ []))
                    ∷ (el "AnimatedSpan"
                        (number "delay" 700 0 ∷ cls "font-mono text-xs text-emerald-400" ∷ [])
                        ((txt "✓ cluster child-dev is Ready") ∷ []))
                    ∷ (el "TypingAnimation"
                        (number "delay" 900 0 ∷ cls "font-mono text-xs text-slate-300" ∷ [])
                        ((txt "$ kubectl --kubeconfig child-dev.yaml get nodes") ∷ []))
                    ∷ (el "AnimatedSpan"
                        (number "delay" 400 0 ∷ cls "font-mono text-xs text-slate-100" ∷ [])
                        ((txt "NAME     STATUS   ROLES    AGE   VERSION") ∷ []))
                    ∷ (el "AnimatedSpan"
                        (number "delay" 300 0 ∷ cls "font-mono text-xs text-slate-100" ∷ [])
                        ((txt "kubelet  Ready    <none>   42s   v1.34.2+k3s1") ∷ []))
                    ∷ []))
                ∷ []))
            ∷ []))
        ∷ []))
      ∷ [])
