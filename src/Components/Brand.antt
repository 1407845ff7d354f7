-- ===== src/Components/Brand.antt =====
-- website/components/logo.tsx and website/components/shimmer-link.tsx, the latter with the defaults
-- of the properties that no page gives.
use kube_cell.Common.{Bool, List, [], ◌∷◌, Option, some, Text, units, if◌then◌else◌}
use kube_cell.Dom.{
  computed, number, style, Node, nothing, el, fragment_of, txt, str, cls, ClassNames,
}

module _ (cn : ClassNames) where
  unfoldable pub logo : Option Text → Bool → Node
  logo class_name with_wordmark =
      el "span"
        (computed "className"
            (cn (some (units "inline-flex items-center gap-2.5") ∷ class_name ∷ []))
          ∷ [])
        ((el "img"
            (str "src" "/kubecell-logo.svg"
              ∷ str "alt" "KubeCell logo"
              ∷ number "width" 36 0
              ∷ number "height" 39 0
              ∷ cls "h-9 w-auto"
              ∷ [])
            [])
          ∷ (if with_wordmark
              then (el "span" (cls "text-[17px] font-semibold tracking-tight text-foreground" ∷ [])
                  ((txt "Kube") ∷ (el "span" (cls "text-sky-400" ∷ []) ((txt "Cell") ∷ [])) ∷ []))
              else nothing)
          ∷ [])

  unfoldable pub shimmer_link : Text → List Node → Option Text → Node
  shimmer_link href children class_name =
      el "Link"
        (computed "href" href
          ∷ style (
              ("--spread", units "90deg")
              ∷ ("--shimmer-color", units "#9ad4ff")
              ∷ ("--radius", units "100px")
              ∷ ("--speed", units "3s")
              ∷ ("--cut", units "0.05em")
              ∷ ("--bg", units "linear-gradient(110deg,#0E2C5B,45%,#2f7fe0,55%,#0E2C5B)")
              ∷ [])
          ∷ computed "className" (
              cn (
                some (
                  units
                    "group relative z-0 flex cursor-pointer items-center justify-center gap-2 overflow-hidden whitespace-nowrap border border-white/10 px-6 py-3 text-white [background:var(--bg)] [border-radius:var(--radius)]")
                ∷ some (
                    units
                      "transform-gpu transition-transform duration-300 ease-in-out active:translate-y-px")
                ∷ class_name
                ∷ []))
          ∷ [])
        ((el "div"
            (computed "className" (
                cn (
                  some (units "-z-30 blur-[2px]")
                  ∷ some (units "@container-[size] absolute inset-0 overflow-visible")
                  ∷ []))
              ∷ [])
            ((el "div"
                (cls
                    "animate-shimmer-slide absolute inset-0 aspect-[1] h-[100cqh] rounded-none [mask:none]"
                  ∷ [])
                ((el "div"
                    (cls
                        "animate-spin-around absolute -inset-full w-auto rotate-0 [translate:0_0] [background:conic-gradient(from_calc(270deg-(var(--spread)*0.5)),transparent_0,var(--shimmer-color)_var(--spread),transparent_var(--spread))]"
                      ∷ [])
                    [])
                  ∷ []))
              ∷ []))
          ∷ (fragment_of children)
          ∷ (el "div"
              (computed "className" (
                  cn (
                    some (units "absolute inset-0 size-full")
                    ∷ some (
                        units
                          "rounded-2xl px-4 py-1.5 text-sm font-medium shadow-[inset_0_-8px_10px_#ffffff1f]")
                    ∷ some (units "transform-gpu transition-all duration-300 ease-in-out")
                    ∷ some (units "group-hover:shadow-[inset_0_-6px_10px_#ffffff3f]")
                    ∷ some (units "group-active:shadow-[inset_0_-10px_10px_#ffffff3f]")
                    ∷ []))
                ∷ [])
              [])
          ∷ (el "div"
              (computed "className" (
                  cn (
                    some (
                      units
                        "absolute inset-(--cut) -z-20 [background:var(--bg)] [border-radius:var(--radius)]")
                    ∷ []))
                ∷ [])
              [])
          ∷ [])
