-- ===== src/Lib.antt =====
-- The website of KubeCell, website/: its libraries (website/lib/), its build script
-- (website/scripts/generate-seo.ts), its own components (website/components/) and pages
-- (website/app/). A page is a tree of React elements that the components build from the texts of
-- website/lib/ and, where they read it, from the path of the page; a code block runs each of its
-- lines through the highlighter; the build writes the site map from the table of contents of the
-- documentation.
--
-- The parts and their files:
-- Common: lists, options and numbers; a JavaScript string is the list of its UTF-16 code units.
-- Regex: what website/lib/highlight.ts uses of JavaScript's regular expressions: a backtracking
--   matcher with greedy repetition, captures, look-ahead, word boundaries, and the `exec` loop.
-- Highlight: website/lib/highlight.ts. Comments holds findCommentStart and findGoCommentStart;
--   Yaml, Bash, Go and Json hold tokenizeYaml, tokenizeBash, tokenizeGo and tokenizeJson; Line holds
--   highlightLine.
-- Nav: website/lib/docs-nav.ts, docNeighbors for any table of contents and for the site's.
-- Site: website/lib/site.ts (Config), website/lib/content.ts and website/lib/faq.ts (Content),
--   website/lib/metadata.ts (Metadata).
-- Dom: the elements that the components return. A component of the site is a function; a
--   component of next/link, lucide-react, components/ui or components/magicui is an element under
--   its name.
-- Json: JSON.stringify of ECMAScript, which website/components/json-ld.tsx and the build script
--   call, for data with whole numbers below 10^21 and with distinct keys that are no array indices,
--   which the data of the site are; Reader is a reader of JSON that the round trip is stated by.
-- Components: website/components/section.tsx, logo.tsx and shimmer-link.tsx (Brand),
--   copy-button.tsx, code-block.tsx, docs/callout.tsx and json-ld.tsx.
-- Layout: website/components/site-header.tsx, site-footer.tsx, docs/docs-pager.tsx and
--   docs/docs-sidebar.tsx.
-- Architecture and Home: website/components/architecture/ and website/components/home/.
-- Pages: website/app/layout.tsx (RootLayout), website/app/docs/layout.tsx (DocsLayout), and one
--   file for each page.tsx: Home, Quickstart, UseCases, Architecture, DocsOverview for
--   website/app/docs/page.tsx, and the pages below website/app/docs/; NotFound is not-found.tsx.
-- Seo: website/scripts/generate-seo.ts; Writing is its loop over the files.
-- Links: where the links of these trees lead, against the routes of Seo. Links/Site has all pages in
--   their frames, their anchors, their canonical addresses, and their scripts with the addresses in
--   them.
--
-- Parameters: `cn` for website/lib/utils.ts, which calls clsx and tailwind-merge; `env` for the
-- variable NEXT_PUBLIC_SITE_URL; `resolve` for the URL constructor; the path of the page, the year,
-- the day of the build, and React's state variables; `address` for the values of absoluteUrl where
-- they stand in a tree; `write` for writeFileSync and `target` for join with the root of the website.
--
-- Fuel: the `exec` loops run on the length of the text and one more. Each of their patterns takes
-- at least one unit, so the loops end before, and the theorems on the tokenizers include that they
-- give a result. A repetition inside a pattern runs on the length of what is left: a round that takes
-- nothing is refused, so when the fuel is used up no unit is left for a further round.
--
-- A reader of JSON runs on twice the length of the text, which is enough for what is printed.
--
-- Not modelled: how long the timer of the copy button runs, which fires at a time of its own; the
-- effects of React and the animations, which have elements under their names; the log lines of the
-- build script; what other programs do to the clipboard; the copied libraries components/ui and
-- components/magicui; the operator, which is written in Go.
pub mod Common
pub mod Regex
pub mod Highlight
pub mod Json
pub mod Dom
pub mod Site
pub mod Nav
pub mod Components
pub mod Layout
pub mod Architecture
pub mod Home
pub mod Pages
pub mod Seo
pub mod Links
pub mod Witnesses
