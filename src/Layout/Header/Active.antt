-- ===== src/Layout/Header/Active.antt =====
-- Which item of the primary navigation is marked.
use kube_cell.Common.{
  ℕ, ◌≤◌, Bool, true, false, List, [], ◌∷◌, ◌++◌, ◌&&◌, ◌==◌, Text, ◌≡◌, refl, arith, length, All,
  units, starts_with,
}
use kube_cell.Layout.Header.{is_active, strip_slash}
use kube_cell.Site.Config.{NavLink, primary_nav}

abbrev keep : Bool → NavLink → List NavLink → List NavLink
keep true item items = item ∷ items
keep false item items = items

abbrev active_in : Text → List NavLink → List NavLink
active_in pathname [] = []
active_in pathname (item ∷ items) =
    keep (is_active pathname item.href) item (active_in pathname items)

-- The items that the header marks on the page `pathname`.
unfoldable pub active_items : Text → List NavLink
unfolding primary_nav is_active
active_items pathname = active_in pathname primary_nav

-- The hrefs of the navigation differ in the unit `d` behind their slash.
one_kept :
    (b p q r t : Bool) (d : ℕ) (w x y z : NavLink)
    → length (
        keep (b && ((d == b'q') && p)) w (
          keep
            (b && ((d == b'u') && q))
            x
            (keep (b && ((d == b'a') && r)) y (keep (b && ((d == b'd') && t)) z []))))
      ≤ 1
one_kept false p q r t d w x y z = omega arith
one_kept true p q r t d w x y z = ground arith

-- On every page at most one item of the navigation is marked.
pub active_items_at_most_one : (pathname : Text) → length (active_items pathname) ≤ 1
unfolding active_items primary_nav is_active strip_slash
active_items_at_most_one [] = ground arith
active_items_at_most_one (c ∷ []) = ground arith
active_items_at_most_one (c ∷ d ∷ s) =
    one_kept (c == b'/') (starts_with s (units "uickstart")) (starts_with s (units "se-cases"))
      (starts_with s (units "rchitecture")) (starts_with s (units "ocs")) d
      (record { title = units "Quickstart"; href = units "/quickstart/" })
      (record { title = units "Use cases"; href = units "/use-cases/" })
      (record { title = units "Architecture"; href = units "/architecture/" })
      (record { title = units "Docs"; href = units "/docs/" })

-- On the page of an item of the navigation, and on every page below it, that item is the one that
-- is marked.
pub active_items_below :
    (rest : Text)
    → All (λ (item : NavLink). active_items (item.href ++ rest) ≡ item ∷ []) primary_nav
unfolding active_items primary_nav is_active strip_slash
active_items_below rest = (refl, (refl, (refl, (refl, tt))))
