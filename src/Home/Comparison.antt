-- ===== src/Home/Comparison.antt =====
-- website/components/home/comparison.tsx.
use kube_cell.Common.{Bool, true, false, List, [], ◌∷◌, none, some, Text, units, map, if◌then◌else◌}
use kube_cell.Dom.{computed, Node, text, el, txt, cls, ClassNames}
use kube_cell.Components.Section.{section_heading, center}

pub record Row : Type 0 where
  pub aspect : Text
  pub namespaces : Text
  pub namespaces_good : Bool
  pub vm_per_dev : Text
  pub vm_good : Bool
  pub kubecell : Text
  pub kubecell_good : Bool

abbrev pub rows : List Row
rows =
    record {
      aspect = units "API surface";
      namespaces = units "Shared API server, shared cluster-wide resources";
      namespaces_good = false;
      vm_per_dev = units "Own API, heavy per-VM control plane";
      vm_good = true;
      kubecell = units "Own K3s API server per developer cluster";
      kubecell_good = true;
    }
    ∷ record {
      aspect = units "Isolation";
      namespaces = units "Namespaces and RBAC only; shared kernel";
      namespaces_good = false;
      vm_per_dev = units "Strong VM boundary, high fixed cost";
      vm_good = true;
      kubecell = units "Dedicated namespace, hard quota, network policy";
      kubecell_good = true;
    }
    ∷ record {
      aspect = units "Accelerators";
      namespaces = units "Shared allocation, hard to reason about";
      namespaces_good = false;
      vm_per_dev = units "GPU passthrough per VM, limited density";
      vm_good = false;
      kubecell = units "Whole cards per cluster, never shared";
      kubecell_good = true;
    }
    ∷ record {
      aspect = units "Density and cost";
      namespaces = units "High density, weak boundaries";
      namespaces_good = true;
      vm_per_dev = units "Low density, duplicated control planes";
      vm_good = false;
      kubecell = units "Shared hosts, isolated control planes";
      kubecell_good = true;
    }
    ∷ record {
      aspect = units "Day-2 operations";
      namespaces = units "One cluster to upgrade";
      namespaces_good = true;
      vm_per_dev = units "Thousands of VMs to patch";
      vm_good = false;
      kubecell = units "One management plane to operate";
      kubecell_good = true;
    }
    ∷ []

unfoldable pub cell : Text → Bool → Node
cell value good = el "div" (cls "flex items-start gap-2" ∷ []) (
    (if good
      then (el "Check" (cls "mt-0.5 h-4 w-4 shrink-0 text-emerald-400" ∷ []) [])
      else (el "X" (cls "mt-0.5 h-4 w-4 shrink-0 text-rose-400/80" ∷ []) []))
    ∷ (el "span" (cls "text-sm leading-6 text-muted-foreground" ∷ []) ((text value) ∷ []))
    ∷ [])

module _ (cn : ClassNames) where
  unfoldable pub comparison : Node
  unfolding section_heading cell
  comparison = el "section" (cls "relative py-20 sm:py-24" ∷ []) (
      (el "div" (cls "container-page" ∷ []) (
        (section_heading cn (some (units "Trade-offs"))
          (txt "Not namespaces. Not a VM per developer.")
          (some (
            txt
              "KubeCell sits between the two familiar extremes: real cluster semantics per developer, sharing the hardware underneath."))
          center none)
        ∷ (el "div" (cls "mt-12 overflow-hidden rounded-2xl border border-white/10" ∷ []) (
            (el "div" (cls "overflow-x-auto" ∷ []) (
              (el "table" (cls "w-full min-w-[720px] border-collapse text-left" ∷ []) (
                (el "thead" [] (
                  (el "tr" (cls "bg-white/[0.03] text-sm" ∷ []) (
                    (el "th" (cls "px-5 py-4 font-medium text-muted-foreground" ∷ [])
                      ((txt "Aspect") ∷ []))
                    ∷ (el "th" (cls "px-5 py-4 font-medium text-muted-foreground" ∷ [])
                        ((txt "Shared namespaces") ∷ []))
                    ∷ (el "th" (cls "px-5 py-4 font-medium text-muted-foreground" ∷ [])
                        ((txt "VM per developer") ∷ []))
                    ∷ (el "th"
                        (computed "className" (
                            cn (
                              some (units "px-5 py-4 font-semibold text-foreground")
                              ∷ some (units "border-x border-sky-400/20 bg-sky-500/[0.07]")
                              ∷ []))
                          ∷ [])
                        ((txt "KubeCell") ∷ []))
                    ∷ []))
                  ∷ []))
                ∷ (el "tbody" [] (
                    map
                      (λ row.
                        el "tr" (computed "key" row.aspect ∷ cls "border-t border-white/5" ∷ []) (
                          (el "td" (cls "px-5 py-4 text-sm font-medium text-foreground" ∷ [])
                            ((text row.aspect) ∷ []))
                          ∷ (el "td" (cls "px-5 py-4" ∷ [])
                              ((cell row.namespaces row.namespaces_good) ∷ []))
                          ∷ (el "td" (cls "px-5 py-4" ∷ [])
                              ((cell row.vm_per_dev row.vm_good) ∷ []))
                          ∷ (el "td"
                              (cls "border-x border-sky-400/20 bg-sky-500/[0.07] px-5 py-4" ∷ [])
                              ((cell row.kubecell row.kubecell_good) ∷ []))
                          ∷ []))
                      rows))
                ∷ []))
              ∷ []))
            ∷ []))
        ∷ []))
      ∷ [])
