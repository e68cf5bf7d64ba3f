-- ===== src/Global.antt =====
-- Global of cpp/centrum.h and cpp/centrum.cc: the objects of the program, built in the order of its
-- members. The thread that then runs the event loop is left out.
pub mod Boot
pub mod Ready
mod Tests
use fpgaml.Common.{
  ℕ, zero, suc, ◌+◌, Bool, true, false, Option, none, some, List, [], ◌∷◌, length, Outcome, ok,
  ◌>>=◌,
}
use fpgaml.Common.Int.{ℤ}
use fpgaml.Common.Names.{Name}
use fpgaml.EvTimer.{LibEv}
use fpgaml.Scheduler.{Scheduler}
use fpgaml.FreeSchedulers.{FreeSchedulers, new_manager, add_free_scheduler}
use fpgaml.Dispatcher.Reading.{Dispatcher, new_dispatcher}
use fpgaml.Tracker.{Tracker, new_tracker}
use fpgaml.Bitstreams.{Documents, BitstreamManager, Bitstream, insert_sizes}
use fpgaml.Bitstreams
use fpgaml.Unimem
use fpgaml.Config.{
  ConfigXml, default_root, new_config, new_sched_config, get_string, get_bool, bitstreams_path,
  enable_bitstream_mmap, unimem_driver_path,
}

module _ (ev : LibEv) (docs : Documents) (xml : ConfigXml) where
  pub record Global : Type 0 where
    pub schedulers : List (Scheduler ev)
    pub free : FreeSchedulers ev
    pub dispatcher : Dispatcher ev
    pub bits_manager : BitstreamManager docs
    pub tracker : Tracker
    pub bits_check : List Name
    pub wg_size_check : List (Name × ℕ)
    pub unimem_fd : ℤ

  -- The loop of Global (): every scheduler is set not to need a reconfiguration, and is listed as
  -- free.
  unfoldable pub free_all :
      List (Scheduler ev) → FreeSchedulers ev → Outcome (List (Scheduler ev) × FreeSchedulers ev)
  free_all [] m = ok ([], m)
  free_all (s ∷ ss) m = add_free_scheduler ev s.id m >>= λ m'.
      free_all ss m' >>= λ r. ok (record s { mock_would_need_reconf = false } ∷ r.0, r.1)

  -- Global (), on the path in the environment and the system's `open`. The flags that are set again
  -- for the schedulers 5 and 10 have that value already.
  unfoldable pub new_global : Option Name → (Name → ℤ) → Outcome Global
  unfolding free_all
  new_global config_path open_file = new_config xml config_path (some default_root) >>= λ top.
      new_sched_config xml ev top >>= λ sc.
      Bitstreams.new_manager docs (get_string xml top bitstreams_path none).1
        (some (get_bool xml top enable_bitstream_mmap false).1)
      >>= λ bits.
          Unimem.new_manager (get_string xml top unimem_driver_path none).1 open_file >>= λ fd.
          free_all sc.schedulers (new_manager ev (length sc.schedulers)) >>= λ r. ok (record {
            schedulers = r.0;
            free = r.1;
            dispatcher = new_dispatcher ev (length sc.schedulers);
            bits_manager = bits;
            tracker = new_tracker ev bits.kernel_bitstream_struct_map sc.schedulers;
            bits_check = bits.xml_files_list;
            wg_size_check = insert_sizes bits.kernel_bitstream_struct_map [];
            unimem_fd = fd;
          })
