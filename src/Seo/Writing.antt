-- ===== src/Seo/Writing.antt =====
-- website/scripts/generate-seo.ts: the loop that writes the files. The file system is a parameter:
-- `write path content files` is what `writeFileSync` does to the files, and `false` its exception,
-- which ends the script; `target` is `join` with the root of the website. The log lines are left
-- out.
use kube_cell.Common.{Bool, true, false, List, [], ◌∷◌, Option, none, some, Text}
use kube_cell.Seo.{outputs}
use kube_cell.Site.Config.{Resolve}

abbrev pub Files : Type 0
Files = Text → Option Text

abbrev pub Write : Type 0
Write = Text → Text → Files → Bool × Files

-- What follows a write, unless it threw.
abbrev pub go_on : (Files → Bool × Files) → Bool × Files → Bool × Files
go_on next (true, files) = next files
go_on next (false, files) = (false, files)

unfoldable pub write_outputs : (Text → Text) → Write → List (Text × Text) → Files → Bool × Files
write_outputs target write [] files = (true, files)
write_outputs target write ((path, content) ∷ later) files =
    go_on (write_outputs target write later) (write (target path) content files)

abbrev write_given : (Text → Text) → Write → Option (List (Text × Text)) → Files → Bool × Files
write_given target write none files = (false, files)
write_given target write (some outputs) files = write_outputs target write outputs files

-- The whole script: whether it comes to its end, and the files behind it.
unfoldable pub generate :
    Resolve → (Text → Text) → Write → Option Text → Text → Files → Bool × Files
unfolding outputs write_outputs
generate resolve target write env lastmod files =
    write_given target write (outputs resolve env lastmod) files
