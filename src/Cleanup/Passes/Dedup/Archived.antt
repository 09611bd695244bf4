-- ===== src/Cleanup/Passes/Dedup/Archived.antt =====
-- Where the lines go that the first pass removes.
use dinomem.Prelude.Text.{Text}
