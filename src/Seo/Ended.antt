-- ===== src/Seo/Ended.antt =====
-- What the build has written when the script comes to its end, and that it does.
use kube_cell.Common.{
  Bool, true, false, ◌||◌, List, [], ◌∷◌, Option, none, some, Text, units, ◌≡◌, ◌≢◌, refl, ◌∙◌, ap,
  sym, Option-cases, inl, inr,
}
use kube_cell.Seo.{outputs, sitemap, robots, manifest_text}
use kube_cell.Seo.Files.{
  some_refused, sitemap_given, robots_given, outputs_given, first_refused, second_refused,
}
use kube_cell.Seo.Writing.{Files, Write, go_on, write_outputs, generate}
use kube_cell.Site.Config.{Resolve}

-- The whole script ended, so this write did not throw.
went_on :
    (next : Files → Bool × Files) (m : Bool × Files) (last : Files)
    → go_on next m ≡ (true, last)
    → (files : Files) × (m ≡ (true, files)) × (next files ≡ (true, last))
went_on next (true, files) last h = (files, refl, h)
went_on next (false, files) last h = cc

ends_after :
    (next : Files → Bool × Files) (m : Bool × Files)
    → m.0 ≡ true
    → ((files : Files) → (next files).0 ≡ true)
    → (go_on next m).0 ≡ true
ends_after next (true, files) h k = k files
ends_after next (false, files) h k = cc

or_false : (a b : Bool) → (a || b) ≡ false → (a ≡ false) × (b ≡ false)
or_false false b h = (refl, h)
or_false true b h = cc

-- The parts of the site map and of the rules for robots were given.
both_given :
    (resolve : Resolve) (env : Option Text) (lastmod : Text)
    → outputs resolve env lastmod ≢ none
    → (listed : Text) × (rules : Text) × (sitemap resolve env lastmod ≡ some listed)
      × (robots resolve env ≡ some rules)
both_given resolve env lastmod h = elim (Option-cases (sitemap resolve env lastmod)) [
  | inl e ↦ absurd (h (first_refused resolve env lastmod e))
  | inr (listed, e) ↦ elim (Option-cases (robots resolve env)) [
    | inl f ↦ absurd (h (second_refused resolve env lastmod f))
    | inr (rules, f) ↦ (listed, rules, e, f)
  ]
]

never_none :
    (resolve : Resolve) (target : Text → Text) (write : Write) (env : Option Text) (lastmod : Text)
    (files last : Files)
    → generate resolve target write env lastmod files ≡ (true, last)
    → outputs resolve env lastmod ≢ none
unfolding generate
never_none resolve target write env lastmod files last h e = let false_h = rw e at h in cc

-- If the three paths have distinct targets, and a write that does not throw leaves its content in
-- its file and the other files as they are, then a script that comes to its end has written the
-- site map, the rules for robots and the web manifest, each to its file, and has left every
-- other file as it is.
pub generate_ended :
    (resolve : Resolve) (target : Text → Text) (write : Write) (env : Option Text) (lastmod : Text)
    (files last : Files)
    → target (units "app/sitemap.xml") ≢ target (units "app/robots.txt")
    → target (units "app/sitemap.xml") ≢ target (units "app/manifest.webmanifest")
    → target (units "app/robots.txt") ≢ target (units "app/manifest.webmanifest")
    → ((path content : Text) (before after : Files)
        → write path content before ≡ (true, after)
        → (after path ≡ some content)
          × ((other : Text) → other ≢ path → after other ≡ before other))
    → generate resolve target write env lastmod files ≡ (true, last)
    → (sitemap resolve env lastmod ≡ last (target (units "app/sitemap.xml")))
      × (robots resolve env ≡ last (target (units "app/robots.txt")))
      × (last (target (units "app/manifest.webmanifest")) ≡ some (manifest_text env))
      × ((other : Text)
          → other ≢ target (units "app/sitemap.xml")
          → other ≢ target (units "app/robots.txt")
          → other ≢ target (units "app/manifest.webmanifest")
          → last other ≡ files other)
unfolding generate write_outputs
generate_ended resolve target write env lastmod files last ab ac bc keeps h =
    let (listed, rules, e, f) =
      both_given resolve env lastmod (never_none resolve target write env lastmod files last h) in
    let run = rw (outputs_given resolve env lastmod listed rules e f) at h in
    let (one, wrote_one, run_one) = went_on _ _ last run in
    let (two, wrote_two, run_two) = went_on _ _ last run_one in
    let (three, wrote_three, run_three) = went_on _ _ last run_two in
    let first = keeps _ _ files one wrote_one in
    let second = keeps _ _ one two wrote_two in
    let third = keeps _ _ two three wrote_three in
    let same : three ≡ last = ap (λ (m : Bool × Files). m.1) run_three in
    (
      e
          ∙ sym first.0
          ∙ sym (second.1 _ ab)
          ∙ sym (third.1 _ ac)
          ∙ ap (λ (f : Files). f (target (units "app/sitemap.xml"))) same,
      f
          ∙ sym second.0
          ∙ sym (third.1 _ bc)
          ∙ ap (λ (f : Files). f (target (units "app/robots.txt"))) same,
      ap (λ (f : Files). f (target (units "app/manifest.webmanifest"))) (sym same) ∙ third.0,
      λ other not_one not_two not_three.
          ap (λ (f : Files). f other) (sym same)
          ∙ third.1 other not_three
          ∙ second.1 other not_two
          ∙ first.1 other not_one,
    )

ends_if_written :
    (target : Text → Text) (write : Write)
    → ((path content : Text) (files : Files) → (write path content files).0 ≡ true)
    → (outputs : List (Text × Text)) (files : Files)
    → (write_outputs target write outputs files).0 ≡ true
unfolding write_outputs
ends_if_written target write accepts [] files = refl
ends_if_written target write accepts ((path, content) ∷ later) files =
    ends_after (write_outputs target write later) (write (target path) content files)
      (accepts (target path) content files) (ends_if_written target write accepts later)

-- If the URL constructor refuses neither the address of the site map nor that of a route, and no
-- write throws, then the script comes to its end.
pub generate_ends :
    (resolve : Resolve) (target : Text → Text) (write : Write) (env : Option Text) (lastmod : Text)
    (files : Files)
    → some_refused resolve env ≡ false
    → ((path content : Text) (before : Files) → (write path content before).0 ≡ true)
    → (generate resolve target write env lastmod files).0 ≡ true
unfolding generate
generate_ends resolve target write env lastmod files h accepts =
    let (routes_good, map_good) = or_false _ _ h in
    let (listed, e) = sitemap_given resolve env lastmod routes_good in
    let (rules, f) = robots_given resolve env map_good in
    rw (outputs_given resolve env lastmod listed rules e f) (
      ends_if_written target write accepts
        ((units "app/sitemap.xml", listed)
          ∷ (units "app/robots.txt", rules)
          ∷ (units "app/manifest.webmanifest", manifest_text env)
          ∷ [])
        files)
