-- ===== src/Pages/NotFound.antt =====
-- website/app/not-found.tsx.
use kube_cell.Common.{true, [], ◌∷◌}
use kube_cell.Dom.{flag, Node, el, txt, str, cls}

unfoldable pub not_found : Node
not_found = el "div" (cls "relative overflow-hidden" ∷ []) (
    (el "div" (cls "pointer-events-none absolute inset-0 bg-grid-faint opacity-50" ∷ []) [])
    ∷ (el "div"
        (cls
            "container-page relative flex min-h-[60vh] flex-col items-center justify-center py-24 text-center"
          ∷ [])
        ((el "p" (cls "font-mono text-xs uppercase tracking-[0.24em] text-sky-400" ∷ [])
            ((txt "404") ∷ []))
          ∷ (el "h1"
              (cls "mt-4 text-3xl font-semibold tracking-tight text-foreground sm:text-4xl" ∷ [])
              ((txt "This cluster does not exist") ∷ []))
          ∷ (el "p" (cls "mt-4 max-w-lg text-pretty text-base leading-7 text-muted-foreground" ∷ [])
              ((txt
                  "The page you requested is not in the desired state and cannot be reconciled. Try the documentation index or head back home.")
                ∷ []))
          ∷ (el "div" (cls "mt-8 flex flex-wrap items-center justify-center gap-3" ∷ []) (
              (el "Button" (flag "asChild" true ∷ [])
                ((el "Link" (str "href" "/" ∷ []) ((txt "Back to home") ∷ [])) ∷ []))
              ∷ (el "Button" (str "variant" "outline" ∷ flag "asChild" true ∷ [])
                  ((el "Link" (str "href" "/docs/" ∷ []) ((txt "Browse docs") ∷ [])) ∷ []))
              ∷ []))
          ∷ []))
    ∷ [])
