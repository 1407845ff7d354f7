-- ===== src/Witnesses.antt =====
-- The theorems at concrete inputs.
pub mod Whole
use kube_cell.Common.{
  ◌≡◌, refl, List, [], ◌∷◌, ◌++◌, reverse, none, some, Text, units, true, false, ◌≤◌, ◌<◌, ◌↔◌,
  length, all, All, map, if◌then◌else◌, arith,
}
use kube_cell.Components.CodeBlock.{
  split_lines, raw_code, code_block, code_line, code_lines, join_lines, line_tokens, strip_newline,
}
use kube_cell.Components.CodeBlock.Displayed.{code_block-copies}
use kube_cell.Components.CodeBlock.Copied.{code_block-clipboard}
use kube_cell.Components.CodeBlock.Lines.{OneLine}
use kube_cell.Components.CopyButton.{copy_button}
use kube_cell.Components.CopyButton.Timing.{
  CopyState, click, written, refused, fires, run_events, run_events_copied, run_events_settled,
}
use kube_cell.Json.{json_string, json_object, no_member, add_member, stringify}
use kube_cell.Components.JsonLd.{json_ld}
use kube_cell.Components.JsonLd.Safety.{has_less, json_has_less, json_ld-has_less}
use kube_cell.Dom.{ClassNames, Node, el, str, txt}
use kube_cell.Dom.Reading.{links, copy_values, scripts, shown_lines}
use kube_cell.Highlight.Bash.{tokenize_bash}
use kube_cell.Highlight.Bash.Drops.{tokenize_bash_drops}
use kube_cell.Highlight.Bash.Gap.{bash_shown, tokenize_bash-Shows}
use kube_cell.Highlight.Comments.{find_comment_start}
use kube_cell.Highlight.Comments.Laws.{IsFirstComment, find_comment_start-IsFirstComment}
use kube_cell.Highlight.JsonKeys.{IsNotKey, highlight_line_no_key}
use kube_cell.Highlight.Line.{highlight_line}
use kube_cell.Highlight.Lossless.Lines.{highlight_line-Shows}
use kube_cell.Highlight.Lossless.Loops.{Shows}
use kube_cell.Highlight.Types.{Token, token, punct, string, plain, number, yaml, text_of}
use kube_cell.Layout.DocsNav.{docs_pager, docs_sidebar, docs_mobile_nav}
use kube_cell.Layout.Header.Active.{active_items, active_items_at_most_one, active_items_below}
use kube_cell.Links.{leads_somewhere, hrefs_of, docs_menus_links, docs_layout-links}
use kube_cell.Nav.{DocLink, docs_flat, docs_nav, neighbors_in}
use kube_cell.Nav.Adjacent.{lists, neighbors_in_adjacent, neighbors_in-eq-none_iff}
use kube_cell.Pages.DocsLayout.{docs_layout}
use kube_cell.Regex.{search}
use kube_cell.Seo.{Route, sitemap_for, static_routes}
use kube_cell.Seo.Locations.{addresses, loc_line, loc_lines, sitemap_for_locations}
use kube_cell.Site.Config.{NavLink, Resolve, primary_nav}

-- The class names that are given, one after the other.
abbrev pub given_names : ClassNames
given_names [] = []
given_names (none ∷ names) = given_names names
given_names (some name ∷ names) = name ++ b' ' ∷ given_names names

-- A path is put behind the address of the site.
abbrev pub appended : Resolve
appended path base = some (base ++ path)

abbrev base : Text
base = units "https://kubecell.io"

abbrev page : List Node
page = el "Link" (str "href" "/docs/troubleshooting/" ∷ []) (txt "the guide" ∷ []) ∷ []

highlight_line-Shows_example : Shows (highlight_line (units "cpu: 4 # x") yaml) (units "cpu: 4 # x")
highlight_line-Shows_example = highlight_line-Shows (units "cpu: 4 # x") yaml tt

find_comment_start-IsFirstComment_example :
    IsFirstComment (units "a: '#' #b") (find_comment_start (units "a: '#' #b"))
find_comment_start-IsFirstComment_example = find_comment_start-IsFirstComment (units "a: '#' #b")

tokenize_bash-Shows_example :
    Shows (tokenize_bash (units "helm list -n ns")) (bash_shown (units "helm list -n ns"))
tokenize_bash-Shows_example = tokenize_bash-Shows (units "helm list -n ns")

tokenize_bash_drops_example :
    (tokens : List Token) × (tokenize_bash (units "helm list -n ns") ≡ some tokens)
    × (length (text_of tokens) < length (units "helm list -n ns"))
unfolding search
tokenize_bash_drops_example =
    tokenize_bash_drops (units "helm list -n ns") (units "elm list") b'h' b' '
      (record { seen = reverse (units "helm list "); rest = units "-n ns"; groups = [] })
      (record { seen = reverse (units "helm list -n"); rest = units " ns"; groups = [] }) refl refl
      refl refl

highlight_line_no_key_example : All IsNotKey (
    token (units "{") punct
    ∷ token (units "\"a\"") string
    ∷ token (units ":") punct
    ∷ token (units " ") plain
    ∷ token (units "1") number
    ∷ token (units "}") punct
    ∷ [])
unfolding highlight_line
highlight_line_no_key_example =
    highlight_line_no_key (units "{\"a\": 1}")
      (token (units "{") punct
        ∷ token (units "\"a\"") string
        ∷ token (units ":") punct
        ∷ token (units " ") plain
        ∷ token (units "1") number
        ∷ token (units "}") punct
        ∷ [])
      refl

abbrev first_page : DocLink
first_page = record { title = units "A"; href = units "/a/"; description = none }

abbrev second_page : DocLink
second_page = record { title = units "B"; href = units "/b/"; description = none }

neighbors_in_adjacent_example :
    ((neighbors_in (first_page ∷ second_page ∷ []) (units "/a/")).next ≡ some second_page)
    × ((neighbors_in (first_page ∷ second_page ∷ []) (units "/b/")).previous ≡ some first_page)
neighbors_in_adjacent_example = neighbors_in_adjacent [] [] first_page second_page refl

no_neighbor_example :
    (((neighbors_in (first_page ∷ second_page ∷ []) (units "/c/")).previous ≡ none)
      × ((neighbors_in (first_page ∷ second_page ∷ []) (units "/c/")).next ≡ none))
    ↔ (lists (first_page ∷ second_page ∷ []) (units "/c/") ≡ false)
no_neighbor_example =
    neighbors_in-eq-none_iff (first_page ∷ second_page ∷ []) (units "/c/") (omega arith)

at_most_one_example : length (active_items (units "/docs/faq/")) ≤ 1
at_most_one_example = active_items_at_most_one (units "/docs/faq/")

active_items_below_example :
    All (λ (item : NavLink). active_items (item.href ++ units "faq/") ≡ item ∷ []) primary_nav
active_items_below_example = active_items_below (units "faq/")

docs_menus_links_example :
    (links (docs_sidebar given_names (units "/docs/")) ≡ hrefs_of docs_flat)
    × (links (docs_mobile_nav given_names (units "/docs/")) ≡ hrefs_of docs_flat)
docs_menus_links_example = docs_menus_links given_names (units "/docs/")

docs_layout-links_example :
    all leads_somewhere (links (docs_layout given_names (units "/docs/faq/") page)) ≡ true
unfolding links leads_somewhere docs_flat docs_nav
docs_layout-links_example = docs_layout-links given_names (units "/docs/faq/") page refl

sitemap_for_locations_example :
    (written : Text) × (sitemap_for appended base (units "2026-01-01") static_routes ≡ some written)
    × (loc_lines (split_lines written)
        ≡ map loc_line (map (λ (route : Route). base ++ route.path) static_routes))
unfolding addresses static_routes OneLine
sitemap_for_locations_example =
    sitemap_for_locations appended base (units "2026-01-01") static_routes
      (map (λ (route : Route). base ++ route.path) static_routes) refl refl
      (refl, (refl, (refl, (refl, tt))))

abbrev copied_twice : CopyState
copied_twice = record { copied = true; writes = 1; timers = 2; clipboard = some (units "a: 1") }

abbrev settled_all : CopyState
settled_all = record { copied = false; writes = 0; timers = 0; clipboard = some (units "a: 1") }

run_events_copied_example : 0 < copied_twice.timers
unfolding run_events
run_events_copied_example =
    run_events_copied (units "a: 1") (click ∷ click ∷ written ∷ click ∷ written ∷ []) copied_twice
      refl refl

run_events_settled_example : (settled_all.writes ≡ 0) × (settled_all.copied ≡ false)
unfolding run_events
run_events_settled_example =
    run_events_settled (units "a: 1") (click ∷ click ∷ written ∷ refused ∷ fires ∷ []) settled_all
      refl refl refl

abbrev two_lines : Node
two_lines =
    code_block given_names false (units "a: 1\nb: 2\n") none (some (units "a.yaml")) none true none

code_block-copies_example :
    (copy_values two_lines ≡ join_lines (shown_lines two_lines) ∷ [])
    × (units "a: 1\nb: 2\n" ≡ join_lines (shown_lines two_lines) ++ 10 ∷ [])
code_block-copies_example =
    code_block-copies given_names false (units "a: 1\nb: 2\n") none (some (units "a.yaml")) none
      true none tt

abbrev both_copied : CopyState
both_copied = record {
  copied = true;
  writes = 1;
  timers = 1;
  clipboard = some (units "a: 1\nb: 2");
}

code_block-clipboard_example : both_copied.clipboard ≡ some (join_lines (shown_lines two_lines))
unfolding copy_values code_block code_line line_tokens raw_code code_lines join_lines strip_newline
    split_lines copy_button run_events highlight_line
code_block-clipboard_example =
    code_block-clipboard given_names false (units "a: 1\nb: 2\n") none (some (units "a.yaml")) none
      true none (units "a: 1\nb: 2") (click ∷ click ∷ written ∷ []) both_copied tt refl refl refl

json_ld-has_less_example :
    map has_less (
      scripts
        (json_ld (json_object (add_member (units "a") (json_string (units "\"<\n")) no_member))))
    ≡ true ∷ []
unfolding json_has_less has_less
json_ld-has_less_example =
    json_ld-has_less (json_object (add_member (units "a") (json_string (units "\"<\n")) no_member))
