-- ===== src/Layout/DocsNav.antt =====
-- website/components/docs/docs-pager.tsx and website/components/docs/docs-sidebar.tsx.
use kube_cell.Common.{List, [], ◌∷◌, Option, none, some, Text, units, text_eq, map, if◌then◌else◌}
use kube_cell.Dom.{
  computed, Node, text, nothing, el, txt, str, cls, when_given, given_or, ClassNames,
}
use kube_cell.Nav.{DocLink, docs_nav, docs_flat, Neighbors, doc_neighbors}

-- `if (!previous && !next) return null`, and what stands behind it.
unfoldable pub pager_for : Option DocLink → Option DocLink → Node
pager_for none none = nothing
pager_for previous next =
    el "div" (cls "mt-16 grid gap-4 border-t border-white/5 pt-8 sm:grid-cols-2" ∷ []) (
      (given_or previous
        (λ previous.
          el "Link"
            (computed "href" previous.href
              ∷ cls
                  "group rounded-xl border border-white/10 bg-white/[0.02] p-4 transition-colors hover:border-sky-400/30"
              ∷ [])
            ((el "span" (cls "inline-flex items-center gap-1.5 text-xs text-muted-foreground" ∷ [])
                ((el "ArrowLeft"
                    (cls "h-3.5 w-3.5 transition-transform group-hover:-translate-x-0.5" ∷ []) [])
                  ∷ (txt "Previous")
                  ∷ []))
              ∷ (el "p" (cls "mt-1.5 text-sm font-medium text-foreground" ∷ [])
                  ((text previous.title) ∷ []))
              ∷ []))
        (el "div" [] []))
      ∷ (when_given next (λ next.
          el "Link"
            (computed "href" next.href
              ∷ cls
                  "group rounded-xl border border-white/10 bg-white/[0.02] p-4 text-right transition-colors hover:border-sky-400/30 sm:col-start-2"
              ∷ [])
            ((el "span" (cls "inline-flex items-center gap-1.5 text-xs text-muted-foreground" ∷ [])
                ((txt "Next")
                  ∷ (el "ArrowRight"
                      (cls "h-3.5 w-3.5 transition-transform group-hover:translate-x-0.5" ∷ []) [])
                  ∷ []))
              ∷ (el "p" (cls "mt-1.5 text-sm font-medium text-foreground" ∷ [])
                  ((text next.title) ∷ []))
              ∷ [])))
      ∷ [])

unfoldable pub pager_of : Neighbors → Node
unfolding pager_for
pager_of neighbors = pager_for neighbors.previous neighbors.next

unfoldable pub docs_pager : Text → Node
unfolding doc_neighbors pager_of
docs_pager pathname = pager_of (doc_neighbors pathname)

-- `items.find((item) => item.href === pathname)`
unfoldable pub find_link : Text → List DocLink → Option DocLink
find_link pathname [] = none
find_link pathname (item ∷ items) =
    let later = find_link pathname items in if text_eq item.href pathname then some item else later

module _ (cn : ClassNames) where
  unfoldable pub docs_sidebar : Text → Node
  unfolding docs_nav
  docs_sidebar pathname = el "nav" (str "aria-label" "Documentation" ∷ cls "space-y-8" ∷ []) (
      map
        (λ group. el "div" (computed "key" group.label ∷ []) (
          (el "p"
            (cls
                "mb-3 font-mono text-[11px] font-medium uppercase tracking-[0.18em] text-muted-foreground"
              ∷ [])
            ((text group.label) ∷ []))
          ∷ (el "ul" (cls "space-y-1 border-l border-white/10" ∷ []) (
              map
                (λ item.
                  let active = text_eq pathname (item.href) in
                  el "li" (computed "key" item.href ∷ []) (
                    (el "Link"
                      (computed "href" item.href
                        ∷ computed "className" (
                            cn (
                              some (
                                units
                                  "-ml-px block border-l border-transparent py-1.5 pl-4 text-sm transition-colors")
                              ∷ some (
                                  if active
                                  then units "border-sky-400 font-medium text-foreground"
                                  else units
                                      "text-muted-foreground hover:border-white/20 hover:text-foreground")
                              ∷ []))
                        ∷ [])
                      ((text item.title) ∷ []))
                    ∷ []))
                group.items))
          ∷ []))
        docs_nav)

  unfoldable pub docs_mobile_nav : Text → Node
  unfolding docs_nav docs_flat find_link
  docs_mobile_nav pathname =
      let current = find_link pathname docs_flat in
      el "details" (cls "group rounded-xl border border-white/10 bg-white/[0.02] lg:hidden" ∷ []) (
        (el "summary"
          (cls
              "flex cursor-pointer items-center justify-between px-4 py-3 text-sm font-medium text-foreground"
            ∷ [])
          ((el "span" [] (
              (txt "Docs menu")
              ∷ (when_given current (λ current.
                  el "span" (cls "text-muted-foreground" ∷ [])
                    ((txt " · ") ∷ (text current.title) ∷ [])))
              ∷ []))
            ∷ (el "span"
                (cls "text-muted-foreground transition-transform group-open:rotate-45" ∷ [])
                ((txt "+") ∷ []))
            ∷ []))
        ∷ (el "div" (cls "border-t border-white/5 px-4 py-4" ∷ []) (
            map
              (λ group. el "div" (computed "key" group.label ∷ cls "mb-4 last:mb-0" ∷ []) (
                (el "p"
                  (cls
                      "mb-2 font-mono text-[10px] uppercase tracking-[0.18em] text-muted-foreground"
                    ∷ [])
                  ((text group.label) ∷ []))
                ∷ (el "ul" (cls "space-y-1" ∷ []) (
                    map
                      (λ item. el "li" (computed "key" item.href ∷ []) (
                        (el "Link"
                          (computed "href" item.href
                            ∷ computed "className" (
                                cn (
                                  some (units "block rounded-md px-2 py-1.5 text-sm")
                                  ∷ some (
                                      if text_eq pathname (item.href)
                                      then units "bg-white/5 font-medium text-foreground"
                                      else units "text-muted-foreground")
                                  ∷ []))
                            ∷ [])
                          ((text item.title) ∷ []))
                        ∷ []))
                      group.items))
                ∷ []))
              docs_nav))
        ∷ [])
