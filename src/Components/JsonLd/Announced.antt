-- ===== src/Components/JsonLd/Announced.antt =====
-- What the scripts of a tree announce to search engines.
use kube_cell.Common.{List, [], ◌∷◌, ◌++◌, Option, some, Text, ◌≡◌, ◌>>=◌, append-nil, ap}
use kube_cell.Json.{Json, stringify, strings_at}
use kube_cell.Json.Reader.{parse}
use kube_cell.Json.RoundTrip.{parse-stringify}

-- The strings under a key in texts of JSON; `none` if one of them is no JSON.
unfoldable pub announced : Text → List Text → Option (List Text)
announced key [] = some []
announced key (s ∷ later) = do
  j ← parse s
  strings ← announced key later
  some (strings_at key j ++ strings)

-- Of one script with a datum, those of the datum.
pub announced-stringify :
    (key : Text) (j : Json) → announced key (stringify j ∷ []) ≡ some (strings_at key j)
unfolding announced
announced-stringify key j = rw (parse-stringify j).0 (ap some (append-nil (strings_at key j)))
