-- ===== src/Links/Site/Addresses.antt =====
-- The addresses that the pages announce to search engines, against where the pages stand and the
-- anchors that they show.
use kube_cell.Common.{List, ◌∷◌, ◌++◌, Text, map}
use kube_cell.Pages.Architecture.{metadata as architecture_metadata}
use kube_cell.Pages.DocsFaq.{metadata as docs_faq_metadata}
use kube_cell.Pages.Quickstart.{metadata as quickstart_metadata}
use kube_cell.Pages.UseCases.{metadata as use_cases_metadata}

-- The addresses of anchors of the page at `path`.
abbrev pub anchor_addresses : (Text → Text) → Text → List Text → List Text
anchor_addresses address path names = map (λ name. address (path ++ b'#' ∷ name)) names
