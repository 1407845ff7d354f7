-- ===== src/Site/Metadata.antt =====
-- website/lib/metadata.ts.
use kube_cell.Common.{List, Option, none, some, Text, units}

pub data PageType : Type 0 where
  website article : PageType

pub record OpenGraph : Type 0 where
  pub type : PageType
  pub title : Text
  pub description : Text
  pub url : Text
  pub site_name : Text

pub record Twitter : Type 0 where
  pub card : Text
  pub title : Text
  pub description : Text

pub record Metadata : Type 0 where
  pub title : Text
  pub description : Text
  pub keywords : Option (List Text)
  pub canonical : Text
  pub open_graph : OpenGraph
  pub twitter : Twitter

-- The arguments of `buildMetadata`; `type` is "website" where it is not given.
pub record PageInfo : Type 0 where
  pub title : Text
  pub description : Text
  pub path : Text
  pub keywords : Option (List Text)
  pub type : Option PageType

abbrev type_or_website : Option PageType → PageType
type_or_website none = website
type_or_website (some t) = t

unfoldable pub build_metadata : PageInfo → Metadata
build_metadata page = record {
  title = page.title;
  description = page.description;
  keywords = page.keywords;
  canonical = page.path;
  open_graph = record {
    type = type_or_website page.type;
    title = page.title;
    description = page.description;
    url = page.path;
    site_name = units "KubeCell";
  };
  twitter = record {
    card = units "summary_large_image";
    title = page.title;
    description = page.description;
  };
}
