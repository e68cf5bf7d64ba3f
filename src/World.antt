-- ===== src/World.antt =====
-- What the scheduling algorithms reach through Global of cpp/centrum.h: the schedulers, the list of
-- free ones and the tracker, with the ndranges, each known by its number in `store`.
use fpgaml.Common.{List}
use fpgaml.NdRange.{NdRange}
use fpgaml.EvTimer.{LibEv}
use fpgaml.FreeSchedulers.{FreeSchedulers}
use fpgaml.Scheduler.{Scheduler}
use fpgaml.Tracker.{Tracker}

pub record World (ev : LibEv) : Type 0 where
  pub store : List NdRange
  pub schedulers : List (Scheduler ev)
  pub free : FreeSchedulers ev
  pub tracker : Tracker
