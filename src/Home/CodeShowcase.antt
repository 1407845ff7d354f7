-- ===== src/Home/CodeShowcase.antt =====
-- website/components/home/code-showcase.tsx.
use kube_cell.Common.{Bool, false, [], ◌∷◌, none, some, Text, units}
use kube_cell.Dom.{Node, el, txt, str, cls, ClassNames}
use kube_cell.Components.Section.{section_heading, center}
use kube_cell.Components.CodeBlock.{code_block}
use kube_cell.Highlight.Types.{Language}

abbrev pub cell_yaml : Text
cell_yaml =
    units
      "apiVersion: kubecell.io/v1alpha1\nkind: Cell\nmetadata:\n  name: cell1\n  namespace: kubecell-system\nspec:\n  managedClusterRef:\n    name: cell1\n  machineProfile:\n    name: ascend-910b\n    devices:\n    - name: ascend\n      resourceName: huawei.com/Ascend910"

abbrev pub class_yaml : Text
class_yaml =
    units
      "apiVersion: kubecell.io/v1alpha1\nkind: VirtualNodeClass\nmetadata:\n  name: ascend-910b\nspec:\n  entitlement:\n    workloadHard:\n      requests.cpu: \"4\"\n      limits.cpu: \"4\"\n      requests.memory: 8Gi\n      limits.memory: 8Gi\n      requests.huawei.com/Ascend910: \"2\"\n      limits.huawei.com/Ascend910: \"2\"\n  storageClassName: topolvm-provisioner"

abbrev pub vc_yaml : Text
vc_yaml =
    units
      "apiVersion: kubecell.io/v1alpha1\nkind: VirtualClusterPlan   # isomorphic dry run first\nmetadata:\n  name: child-dev-plan\n  namespace: kubecell-system\nspec:\n  cellRef: {name: cell1}\n  classRef: {name: ascend-910b}\n---\napiVersion: kubecell.io/v1alpha1\nkind: VirtualCluster       # then the real thing\nmetadata:\n  name: child-dev\n  namespace: kubecell-system\nspec:\n  cellRef: {name: cell1}\n  classRef: {name: ascend-910b}"

-- `copied` is the state of the copy buttons.
module _ (cn : ClassNames) where
  unfoldable pub code_showcase : Bool → Node
  unfolding section_heading
  code_showcase copied = el "section" (cls "relative py-20 sm:py-24" ∷ []) (
      (el "div" (cls "container-page" ∷ []) (
        (section_heading cn (some (units "The manifests"))
          (txt "Three small files stand between a host and a developer")
          (some (
            txt
              "A Cell describes one physical host and what it offers. A VirtualNodeClass is a quota tier. A VirtualCluster is eight lines."))
          center none)
        ∷ (el "div" (cls "mx-auto mt-12 max-w-3xl" ∷ []) (
            (el "Tabs" (str "defaultValue" "cell" ∷ []) (
              (el "TabsList"
                (cls
                    "mx-auto flex h-auto w-fit flex-wrap justify-center gap-1 border border-white/10 bg-white/[0.03] p-1"
                  ∷ [])
                ((el "TabsTrigger" (str "value" "cell" ∷ []) ((txt "Cell") ∷ []))
                  ∷ (el "TabsTrigger" (str "value" "class" ∷ []) ((txt "VirtualNodeClass") ∷ []))
                  ∷ (el "TabsTrigger" (str "value" "vc" ∷ []) ((txt "Plan → VirtualCluster") ∷ []))
                  ∷ []))
              ∷ (el "TabsContent" (str "value" "cell" ∷ cls "mt-6" ∷ []) (
                  (code_block cn copied cell_yaml (some Language.yaml) (some (units "cell.yaml"))
                    none false none)
                  ∷ []))
              ∷ (el "TabsContent" (str "value" "class" ∷ cls "mt-6" ∷ []) (
                  (code_block cn copied class_yaml (some Language.yaml)
                    (some (units "virtualnodeclass.yaml")) none false none)
                  ∷ []))
              ∷ (el "TabsContent" (str "value" "vc" ∷ cls "mt-6" ∷ []) (
                  (code_block cn copied vc_yaml (some Language.yaml)
                    (some (units "virtualcluster.yaml")) none false none)
                  ∷ []))
              ∷ []))
            ∷ []))
        ∷ (el "p"
            (cls "mx-auto mt-6 max-w-3xl text-center text-sm leading-6 text-muted-foreground" ∷ [])
            ((txt
                "Not sure a request will fit? Create the Plan first: it checks capacity without creating anything, tells you exactly which resource is missing, and never blocks a later change.")
              ∷ []))
        ∷ []))
      ∷ [])
