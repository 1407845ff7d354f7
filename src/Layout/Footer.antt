-- ===== src/Layout/Footer.antt =====
-- website/components/site-footer.tsx. The year of `new Date()` is an argument.
use kube_cell.Common.{ℕ, true, List, [], ◌∷◌, Option, none, Text, units, map, take}
use kube_cell.Dom.{computed, Node, text, digits, el, fragment_of, txt, str, cls, ClassNames}
use kube_cell.Components.Brand.{logo}
use kube_cell.Nav.{docs_flat}
use kube_cell.Site.Config.{NavLink, site_config, primary_nav}

unfoldable pub project_links : Option Text → List NavLink
unfolding site_config
project_links env =
    record { title = units "GitHub repository"; href = (site_config env).github }
    ∷ record { title = units "Technical design"; href = (site_config env).docs.design }
    ∷ record { title = units "Host onboarding guide"; href = (site_config env).docs.onboarding }
    ∷ record { title = units "CI plan"; href = (site_config env).docs.ci_plan }
    ∷ record { title = units "Issues"; href = (site_config env).github_issues }
    ∷ []

module _ (cn : ClassNames) (env : Option Text) where
  unfoldable pub site_footer : ℕ → Node
  unfolding logo primary_nav docs_flat project_links
  site_footer year = el "footer" (cls "border-t border-white/5 bg-[#04060d]" ∷ []) (
      (el "div" (cls "container-page py-14" ∷ []) (
        (el "div" (cls "grid gap-10 lg:grid-cols-[1.4fr_1fr_1fr_1fr]" ∷ []) (
          (el "div" (cls "max-w-sm" ∷ []) (
            (logo cn none true)
            ∷ (el "p" (cls "mt-4 text-sm leading-6 text-muted-foreground" ∷ []) (
                (txt
                  "Give every developer their own isolated Kubernetes cluster on the hardware you already own — with hard CPU, memory, and GPU quotas, persistent storage, and standard kubectl.")
                ∷ []))
            ∷ (el "p" (cls "mt-4 text-xs leading-5 text-amber-300/80" ∷ []) (
                (txt
                  "KubeCell is in active development and not yet stable. Do not use it for production workloads.")
                ∷ []))
            ∷ []))
          ∷ (el "div" [] (
              (el "h3" (cls "text-sm font-semibold text-foreground" ∷ []) ((txt "Product") ∷ []))
              ∷ (el "ul" (cls "mt-4 space-y-2.5 text-sm" ∷ []) (
                  (fragment_of (
                    map
                      (λ item. el "li" (computed "key" item.href ∷ []) (
                        (el "Link"
                          (computed "href" item.href
                            ∷ cls "text-muted-foreground transition-colors hover:text-foreground"
                            ∷ [])
                          ((text item.title) ∷ []))
                        ∷ []))
                      primary_nav))
                  ∷ (el "li" [] (
                      (el "Link"
                        (str "href" "/docs/faq/"
                          ∷ cls "text-muted-foreground transition-colors hover:text-foreground"
                          ∷ [])
                        ((txt "FAQ") ∷ []))
                      ∷ []))
                  ∷ []))
              ∷ []))
          ∷ (el "div" [] (
              (el "h3" (cls "text-sm font-semibold text-foreground" ∷ [])
                ((txt "Documentation") ∷ []))
              ∷ (el "ul" (cls "mt-4 space-y-2.5 text-sm" ∷ []) (
                  map
                    (λ item. el "li" (computed "key" item.href ∷ []) (
                      (el "Link"
                        (computed "href" item.href
                          ∷ cls "text-muted-foreground transition-colors hover:text-foreground"
                          ∷ [])
                        ((text item.title) ∷ []))
                      ∷ []))
                    (take 6 docs_flat)))
              ∷ []))
          ∷ (el "div" [] (
              (el "h3" (cls "text-sm font-semibold text-foreground" ∷ []) ((txt "Project") ∷ []))
              ∷ (el "ul" (cls "mt-4 space-y-2.5 text-sm" ∷ []) (
                  map
                    (λ item. el "li" (computed "key" item.href ∷ []) (
                      (el "a"
                        (computed "href" item.href
                          ∷ str "target" "_blank"
                          ∷ str "rel" "noreferrer"
                          ∷ cls
                              "inline-flex items-center gap-1.5 text-muted-foreground transition-colors hover:text-foreground"
                          ∷ [])
                        ((text item.title)
                          ∷ (el "Github" (cls "h-3.5 w-3.5 opacity-60" ∷ []) [])
                          ∷ []))
                      ∷ []))
                    (project_links env)))
              ∷ []))
          ∷ []))
        ∷ (el "div"
            (cls
                "mt-12 flex flex-col gap-3 border-t border-white/5 pt-6 text-xs text-muted-foreground sm:flex-row sm:items-center sm:justify-between"
              ∷ [])
            ((el "p" [] (
                (txt "© ")
                ∷ (digits year)
                ∷ (txt " KubeCell contributors. Built in the open on GitHub.")
                ∷ []))
              ∷ (el "p" (cls "font-mono" ∷ [])
                  ((txt "Open source · pre-release · built on Kubernetes") ∷ []))
              ∷ []))
        ∷ []))
      ∷ [])
