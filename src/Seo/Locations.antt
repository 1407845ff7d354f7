-- ===== src/Seo/Locations.antt =====
-- The addresses that the site map lists.
use kube_cell.Common.{
  ℕ, Bool, List, [], ◌∷◌, ◌++◌, Option, none, some, Text, units, ◌≡◌, refl, sym, ap, ◌∙◌, arith,
  if◌then◌else◌, map, starts_with, All, append_assoc, ◌>>=◌, append-nil,
}
use kube_cell.Components.CodeBlock.{split_lines, join_lines}
use kube_cell.Components.CodeBlock.Lines.{
  OneLine, OneLine-append, split_lines-join_lines, split_lines-join_lines_one, flat,
}
use kube_cell.Regex.Loop.{bind_some}
use kube_cell.Seo.{
  Route, ChangeFrequency, weekly, monthly, entry_lines, entries, sitemap_for, frequency_text,
  priority_text, sitemap_text,
}
use kube_cell.Site.Config.{Resolve}

-- The addresses that the routes have, one after the other.
unfoldable pub addresses : Resolve → Text → List Route → Option (List Text)
addresses resolve base [] = some []
addresses resolve base (route ∷ later) = do
  url ← resolve route.path base
  urls ← addresses resolve base later
  some (url ∷ urls)

unfoldable pub loc_line : Text → Text
loc_line url = units "    <loc>" ++ url ++ units "</loc>"

-- The lines of a text that hold a location.
unfoldable is_loc : Text → Bool
is_loc line = starts_with line (units "    <loc>")

abbrev where_true : (Text → Bool) → List Text → List Text
where_true p [] = []
where_true p (line ∷ lines) = let rest = where_true p lines in if p line then line ∷ rest else rest

unfoldable pub loc_lines : List Text → List Text
unfolding is_loc
loc_lines lines = where_true is_loc lines

where_true-append :
    (p : Text → Bool) (xs ys : List Text)
    → where_true p (xs ++ ys) ≡ where_true p xs ++ where_true p ys
where_true-append p [] ys = refl
where_true-append p (x ∷ xs) ys = ground (arith, where_true-append p xs ys)

frequency_text-OneLine : (frequency : ChangeFrequency) → OneLine (frequency_text frequency)
unfolding OneLine
frequency_text-OneLine weekly = refl
frequency_text-OneLine monthly = refl

priority_text-OneLine : (tenths : ℕ) → OneLine (priority_text tenths)
unfolding OneLine
priority_text-OneLine tenths = ground arith

around-OneLine : (p s q : Text) → OneLine p → OneLine s → OneLine q → OneLine (p ++ s ++ q)
around-OneLine p s q hp hs hq = OneLine-append (p ++ s) q (OneLine-append p s hp hs) hq

entry_lines-OneLine :
    (lastmod : Text) (route : Route) (url : Text)
    → OneLine lastmod
    → OneLine url
    → All OneLine (entry_lines lastmod route url)
unfolding OneLine
entry_lines-OneLine lastmod route url hl hu = (
  refl,
  (
    around-OneLine (units "    <loc>") url (units "</loc>") refl hu refl,
    (
      around-OneLine (units "    <lastmod>") lastmod (units "</lastmod>") refl hl refl,
      (
        around-OneLine (units "    <changefreq>") (frequency_text route.change_frequency)
            (units "</changefreq>") refl (frequency_text-OneLine route.change_frequency) refl,
        (
          around-OneLine (units "    <priority>") (priority_text route.priority)
              (units "</priority>") refl (priority_text-OneLine route.priority) refl,
          (refl, tt),
        ),
      ),
    ),
  ),
)

abbrev some_texts : Option (List Text) → List Text
some_texts none = []
some_texts (some texts) = texts

entry_location :
    (lastmod : Text) (route : Route) (url : Text) (more : List Text)
    → OneLine lastmod
    → OneLine url
    → loc_lines (split_lines (join_lines (entry_lines lastmod route url)) ++ more)
      ≡ loc_line url ∷ loc_lines more
unfolding loc_lines loc_line is_loc
entry_location lastmod route url more hl hu =
    rw (split_lines-join_lines_one _ _ (entry_lines-OneLine lastmod route url hl hu)) refl

-- The locations of the entries.
entries_locations :
    (resolve : Resolve) (base lastmod : Text) (pages : List Route) (urls : List Text)
    → OneLine lastmod
    → addresses resolve base pages ≡ some urls
    → All OneLine urls
    → (texts : List Text) × (entries resolve base lastmod pages ≡ some texts)
      × (loc_lines (flat (map split_lines texts)) ≡ map loc_line urls)
unfolding addresses entries loc_line loc_lines
entries_locations resolve base lastmod [] urls hl given hu =
    ([], refl, ap (map loc_line) (ap (λ o. some_texts o) given))
entries_locations resolve base lastmod (route ∷ later) urls hl given hu =
    let (url, e, g) = bind_some (resolve route.path base) _ given in
    let (rest, f, k) = bind_some (addresses resolve base later) _ g in
    let same : urls ≡ url ∷ rest = cc (k) in
    let (h, hs) = rw same at hu in
    let (texts, made, located) = entries_locations resolve base lastmod later rest hl f hs in
    (
      join_lines (entry_lines lastmod route url) ∷ texts,
      rw (e, made) refl,
      entry_location lastmod route url (flat (map split_lines texts)) hl h
          ∙ rw (located, same) refl,
    )

flat-map_append :
    (xs ys : List Text)
    → flat (map split_lines (xs ++ ys)) ≡ flat (map split_lines xs) ++ flat (map split_lines ys)
flat-map_append [] ys = refl
flat-map_append (x ∷ xs) ys =
    ap (λ w. split_lines x ++ w) (flat-map_append xs ys)
    ∙ sym (append_assoc (split_lines x) (flat (map split_lines xs)) (flat (map split_lines ys)))

-- The other lines of the site map hold no location.
sitemap_text_locations :
    (texts : List Text)
    → loc_lines (split_lines (sitemap_text texts)) ≡ loc_lines (flat (map split_lines texts))
unfolding loc_lines is_loc split_lines
sitemap_text_locations texts =
    rw (split_lines-join_lines _ _, flat-map_append texts (units "</urlset>" ∷ [] ∷ []))
      (where_true-append is_loc (flat (map split_lines texts)) _ ∙ append-nil _)

-- If each route has an address, and neither an address nor the day holds a newline, the site map is
-- written, and its lines with a location are those of the addresses, in the routes' order.
pub sitemap_for_locations :
    (resolve : Resolve) (base lastmod : Text) (pages : List Route) (urls : List Text)
    → OneLine lastmod
    → addresses resolve base pages ≡ some urls
    → All OneLine urls
    → (written : Text) × (sitemap_for resolve base lastmod pages ≡ some written)
      × (loc_lines (split_lines written) ≡ map loc_line urls)
unfolding sitemap_for loc_lines
sitemap_for_locations resolve base lastmod pages urls hl given hu =
    let (texts, made, located) = entries_locations resolve base lastmod pages urls hl given hu in
    (sitemap_text texts, rw made refl, sitemap_text_locations texts ∙ located)
