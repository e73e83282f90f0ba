-- ===== src/Index/Splice.antt =====
-- The lines that spliceRegion of pkg/doczcore/index/index.go replaces.
use docz.Text.{Text}
