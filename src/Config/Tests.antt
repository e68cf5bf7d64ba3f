-- ===== src/Config/Tests.antt =====
-- The theorem on the configuration's schedulers at an input.
use fpgaml.Common.{◌≡◌, [], ◌∷◌, throw, Exception, arith}
use fpgaml.Config.{Tuple3, create_schedulers}
use fpgaml.Config.Schedulers.{create_schedulers_throws}
use fpgaml.Config.Samples.{digits}
use fpgaml.Samples.{flags}

abbrev board : Tuple3
board = record { board_id = 0; fpga_id = 1; pr_id = 1 }

create_schedulers_throws_example :
    create_schedulers digits flags (board ∷ record board { board_id = 4 } ∷ board ∷ [])
    ≡ throw Exception.runtime_error
create_schedulers_throws_example =
    create_schedulers_throws digits flags (board ∷ []) (board ∷ []) (record board { board_id = 4 })
      (omega arith, tt) (omega arith)
