-- ===== src/Docwrite/Status/Rewrite.antt =====
-- What pkg/doczcore/docwrite/status.go keeps of a document.
use docz.Prelude.{◌≡◌, Option, none, some, ◌++◌}
use docz.Text.{Text}
use docz.Docwrite.Status.{Outcome, rewritten, refused}

abbrev Bounds : Text → Option (Text × Text × Text) → Type 0
Bounds doc none = Unit
Bounds doc (some (before, block, after)) = before ++ (block ++ after) ≡ doc

abbrev document_of : Text → Outcome → Text
document_of default (rewritten out old) = out
document_of default (refused e) = default

abbrev status_of : Text → Outcome → Text
status_of default (rewritten out old) = old
status_of default (refused e) = default
