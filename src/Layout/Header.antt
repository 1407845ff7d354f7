-- ===== src/Layout/Header.antt =====
-- website/components/site-header.tsx.
pub mod Active
use kube_cell.Common.{
  ℕ, Bool, true, false, List, [], ◌∷◌, ◌++◌, Option, none, some, Text, String, units, text_eq, map,
  take, if◌then◌else◌, length, ltb, ◌==◌, not, suc, zero, starts_with, ◌+◌, ◌*◌, ◌-◌,
}
use kube_cell.Dom.{
  Prop, computed, number, minus, flag, handler, ref, list, style, given, Node, text, digits,
  nothing, el, fragment_of, txt, str, cls, when_given, given_or, when_any, map_index, ClassNames,
}
use kube_cell.Components.Brand.{logo}
use kube_cell.Site.Config.{NavLink, site_config, primary_nav}

-- `href.replace(/\/$/, "")`
unfoldable pub strip_slash : Text → Text
strip_slash [] = []
strip_slash (c ∷ []) = if c == b'/' then [] else c ∷ []
strip_slash (c ∷ d ∷ s) = c ∷ strip_slash (d ∷ s)

-- `isActive`
unfoldable pub is_active : Text → Text → Bool
unfolding strip_slash
is_active pathname href =
    if text_eq href (units "/")
    then text_eq pathname (units "/")
    else if text_eq href (units "/docs/")
    then starts_with pathname (units "/docs")
    else starts_with pathname (strip_slash href)

-- `is_open` is the state `open` of the menu.
module _ (cn : ClassNames) (env : Option Text) where
  unfoldable pub site_header : Text → Bool → Node
  unfolding logo site_config primary_nav is_active
  site_header pathname is_open =
      el "header"
        (cls "sticky top-0 z-50 w-full border-b border-white/5 bg-background/70 backdrop-blur-xl"
          ∷ [])
        ((el "div" (cls "container-page flex h-16 items-center justify-between gap-4" ∷ []) (
            (el "Link" (str "href" "/" ∷ cls "shrink-0" ∷ str "aria-label" "KubeCell home" ∷ [])
              ((logo cn none true) ∷ []))
            ∷ (el "nav" (cls "hidden items-center gap-1 md:flex" ∷ str "aria-label" "Primary" ∷ [])
                (map
                  (λ item.
                    el "Link"
                      (computed "key" item.href
                        ∷ computed "href" item.href
                        ∷ computed "className" (
                            cn (
                              some (
                                units
                                  "rounded-md px-3 py-2 text-sm text-muted-foreground transition-colors hover:bg-white/5 hover:text-foreground")
                              ∷ (if (is_active (pathname) (item.href))
                                  then some (units "text-foreground")
                                  else none)
                              ∷ []))
                        ∷ [])
                      ((text item.title) ∷ []))
                  primary_nav))
            ∷ (el "div" (cls "flex items-center gap-2" ∷ []) (
                (el "Button"
                  (str "variant" "ghost"
                    ∷ str "size" "sm"
                    ∷ flag "asChild" true
                    ∷ cls "hidden sm:inline-flex"
                    ∷ [])
                  ((el "a"
                      (computed "href" ((site_config env).github)
                        ∷ str "target" "_blank"
                        ∷ str "rel" "noreferrer"
                        ∷ [])
                      ((el "Github" (cls "h-4 w-4" ∷ []) [])
                        ∷ (el "span" (cls "ml-1.5" ∷ []) ((txt "GitHub") ∷ []))
                        ∷ []))
                    ∷ []))
                ∷ (el "Button"
                    (str "size" "sm" ∷ flag "asChild" true ∷ cls "hidden sm:inline-flex" ∷ [])
                    ((el "Link" (str "href" "/quickstart/" ∷ []) ((txt "Get started") ∷ [])) ∷ []))
                ∷ (el "Sheet" (flag "open" is_open ∷ handler "onOpenChange" "setOpen" ∷ []) (
                    (el "SheetTrigger" (flag "asChild" true ∷ []) (
                      (el "Button"
                        (str "variant" "ghost"
                          ∷ str "size" "icon"
                          ∷ cls "md:hidden"
                          ∷ str "aria-label" "Open menu"
                          ∷ [])
                        ((el "Menu" (cls "h-5 w-5" ∷ []) []) ∷ []))
                      ∷ []))
                    ∷ (el "SheetContent"
                        (str "side" "right" ∷ cls "w-80 border-white/10 bg-[#070c17]" ∷ [])
                        ((el "SheetHeader" [] (
                            (el "SheetTitle" (cls "text-left" ∷ []) ((logo cn none true) ∷ []))
                            ∷ []))
                          ∷ (el "nav"
                              (cls "mt-6 flex flex-col gap-1" ∷ str "aria-label" "Mobile" ∷ [])
                              ((fragment_of (
                                  map
                                    (λ item.
                                      el "Link"
                                        (computed "key" item.href
                                          ∷ computed "href" item.href
                                          ∷ handler "onClick" "() => setOpen(false)"
                                          ∷ computed "className" (
                                              cn (
                                                some (
                                                  units
                                                    "rounded-lg px-3 py-2.5 text-sm text-muted-foreground transition-colors hover:bg-white/5 hover:text-foreground")
                                                ∷ (if (is_active (pathname) (item.href))
                                                    then some (units "bg-white/5 text-foreground")
                                                    else none)
                                                ∷ []))
                                          ∷ [])
                                        ((text item.title) ∷ []))
                                    primary_nav))
                                ∷ (el "a"
                                    (computed "href" ((site_config env).github)
                                      ∷ str "target" "_blank"
                                      ∷ str "rel" "noreferrer"
                                      ∷ cls
                                          "mt-2 flex items-center gap-2 rounded-lg px-3 py-2.5 text-sm text-muted-foreground transition-colors hover:bg-white/5 hover:text-foreground"
                                      ∷ [])
                                    ((el "Github" (cls "h-4 w-4" ∷ []) []) ∷ (txt "GitHub") ∷ []))
                                ∷ []))
                          ∷ (el "div" (cls "mt-6" ∷ []) (
                              (el "Button" (flag "asChild" true ∷ cls "w-full" ∷ []) (
                                (el "Link"
                                  (str "href" "/quickstart/"
                                    ∷ handler "onClick" "() => setOpen(false)"
                                    ∷ [])
                                  ((txt "Get started") ∷ []))
                                ∷ []))
                              ∷ []))
                          ∷ []))
                    ∷ []))
                ∷ []))
            ∷ []))
          ∷ [])
