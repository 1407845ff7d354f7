-- ===== src/Pages/Announced.antt =====
-- What the quickstart and the use cases announce to search engines against what they show.
use kube_cell.Common.{Bool, ◌∷◌, Text, units, ◌≡◌, take}
use kube_cell.Components.CodeBlock.NoLinks.{code_block-headings}
use kube_cell.Dom.{ClassNames}
use kube_cell.Dom.Reading.{texts_of}
use kube_cell.Json.{strings_at}
use kube_cell.Pages.Quickstart.{steps, how_to_ld_of, quickstart_page}
use kube_cell.Pages.UseCases.{use_cases, item_list_ld_of, use_cases_page}

-- The steps and the use cases that the structured data names, behind its own title, are the first
-- headings of their pages, in the same order, whatever the addresses are.
pub names_announced :
    (cn : ClassNames) (copied : Bool) (address : Text → Text)
    → (strings_at (units "name") (how_to_ld_of cn copied address)
        ≡ units "Provision your first KubeCell VirtualCluster"
          ∷ take 6 (texts_of "h2" (quickstart_page cn copied address)))
      × (strings_at (units "name") (item_list_ld_of address)
          ≡ units "KubeCell use cases" ∷ take 5 (texts_of "h2" (use_cases_page cn copied address)))
unfolding strings_at texts_of how_to_ld_of steps quickstart_page item_list_ld_of use_cases
    use_cases_page
names_announced cn copied address = (simp (code_block-headings), simp (code_block-headings))
