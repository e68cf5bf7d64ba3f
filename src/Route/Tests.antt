-- ===== src/Route/Tests.antt =====
-- The theorem on route_ndrange at an input.
use fpgaml.AlgoSimple.{AlgoSimple}
use fpgaml.World.{World}
