-- ===== src/Pages/DocsFaq/Shown.antt =====
-- What the FAQ page announces to search engines against what it shows.
use kube_cell.Common.{◌∷◌, Text, units, ◌≡◌, refl, take, some, []}
use kube_cell.Components.JsonLd.{json_ld}
use kube_cell.Components.JsonLd.Announced.{announced, announced-stringify}
use kube_cell.Dom.{ClassNames}
use kube_cell.Dom.Reading.{scripts, texts_of}
use kube_cell.Home.FaqPreview.{faq_preview}
use kube_cell.Json.{stringify, strings_at}
use kube_cell.Pages.DocsFaq.{faq_ld_at, faq_page_of}
use kube_cell.Site.Content.{faq_items}

faq_script :
    (cn : ClassNames) (address : Text → Text)
    → scripts (faq_page_of cn address) ≡ stringify (faq_ld_at (address (units "/docs/faq/"))) ∷ []
unfolding scripts faq_page_of json_ld
faq_script cn address = refl

-- The script of the FAQ page is JSON whose questions and answers are the texts of the items that the
-- page shows, in the same order; and the home page shows the first five of the questions.
pub faq_announced :
    (cn : ClassNames) (address : Text → Text)
    → (announced (units "name") (scripts (faq_page_of cn address))
        ≡ some (texts_of "AccordionTrigger" (faq_page_of cn address)))
      × (announced (units "text") (scripts (faq_page_of cn address))
          ≡ some (texts_of "AccordionContent" (faq_page_of cn address)))
      × (texts_of "AccordionTrigger" (faq_preview cn)
          ≡ take 5 (texts_of "AccordionTrigger" (faq_page_of cn address)))
unfolding strings_at texts_of faq_ld_at faq_page_of faq_preview faq_items
faq_announced cn address = (
  rw (faq_script cn address) (announced-stringify _ (faq_ld_at (address (units "/docs/faq/")))),
  rw (faq_script cn address) (announced-stringify _ (faq_ld_at (address (units "/docs/faq/")))),
  refl,
)
