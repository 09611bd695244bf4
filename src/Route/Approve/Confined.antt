-- ===== src/Route/Approve/Confined.antt =====
-- What the answers cannot do.
use dinomem.Prelude.Text.{Text}
use dinomem.Route.Proposal.{Proposal}
