-- ===== src/Global/Boot.antt =====
-- The construction of Global, step by step.
use fpgaml.Common.{
  ℕ, suc, ◌+◌, ◌≤◌, ◌≡◌, refl, sym, ap, false, Option, none, some, List, [], ◌∷◌, ◌++◌, length,
  length-append, append_nil, All, ok, arith,
}
use mathlib.Core.List.{append_assoc}
use mathlib.Core.Path.{subst}
use fpgaml.Common.Int.{ℤ}
use fpgaml.Common.Names.{Name}
use fpgaml.CircArray.Inv.{Holds}
use fpgaml.Dispatcher.Reading.{new_dispatcher}
use fpgaml.EvTimer.{LibEv}
use fpgaml.FreeSchedulers.{FreeSchedulers, new_manager, add_free_scheduler}
use fpgaml.FreeSchedulers.Laws.{add_free_scheduler_lem}
use fpgaml.Scheduler.{Scheduler}
use fpgaml.Tracker.{new_tracker}
use fpgaml.Bitstreams.{Documents, BitstreamManager, ml_success, insert_sizes}
use fpgaml.Bitstreams
use fpgaml.Unimem
use fpgaml.Route.Submit.{HasRoom}
use fpgaml.Config.{
  ConfigXml, create_schedulers, default_root, new_config, new_sched_config, get_string, get_bool,
  bitstreams_path, enable_bitstream_mmap, unimem_driver_path, get_values_for_key, prs,
  pr_extractors,
}
use fpgaml.Config.Schedulers.{scheduler_ids}
use fpgaml.Global.{Global, free_all, new_global}

module _ (ev : LibEv) (docs : Documents) (xml : ConfigXml) where
  -- The schedulers as Global leaves them: none needs a reconfiguration.
  abbrev pub settled : List (Scheduler ev) → List (Scheduler ev)
  settled [] = []
  settled (s ∷ ss) = record s { mock_would_need_reconf = false } ∷ settled ss

  pub settled-HasRoom :
      (ss : List (Scheduler ev)) → All (HasRoom ev) ss → All (HasRoom ev) (settled ss)
  settled-HasRoom [] h = tt
  settled-HasRoom (s ∷ ss) ((ws, runs, room), h) =
      ((ws, record { queue = runs.queue; busy = runs.busy }, room), settled-HasRoom ss h)

  pub length-settled : (ss : List (Scheduler ev)) → length (settled ss) ≡ length ss
  length-settled [] = refl
  length-settled (s ∷ ss) = ap suc (length-settled ss)

  free_all_end : (m : FreeSchedulers ev) → free_all ev docs xml [] m ≡ ok ([], m)
  unfolding free_all
  free_all_end m = refl

  free_all_step :
      (s : Scheduler ev) (ss ss' : List (Scheduler ev)) (m m' m2 : FreeSchedulers ev)
      → add_free_scheduler ev s.id m ≡ ok m'
      → free_all ev docs xml ss m' ≡ ok (ss', m2)
      → free_all ev docs xml (s ∷ ss) m ≡ ok (record s { mock_would_need_reconf = false } ∷ ss', m2)
  unfolding free_all
  free_all_step s ss ss' m m' m2 e f = ground (arith, e, f)

  -- The loop of Global (), where the list has room for all, lists their numbers in order.
  pub free_all_lem :
      (ss : List (Scheduler ev)) (m : FreeSchedulers ev) (xs : List ℕ)
      → Holds m.free_schedulers xs
      → length xs + length ss ≤ m.free_schedulers.capacity
      → (m' : FreeSchedulers ev) × (free_all ev docs xml ss m ≡ ok (settled ss, m'))
        × Holds m'.free_schedulers (xs ++ scheduler_ids ev ss)
  free_all_lem [] m xs h room =
      (m, free_all_end m, subst (Holds m.free_schedulers) (sym (append_nil xs)) h)
  free_all_lem (s ∷ ss) m xs h room =
      let (m1, e, h1, act, cap) = add_free_scheduler_lem ev s.id m h (omega arith) in
      let l = length-append xs (s.id ∷ []) in
      let (m2, f, h2) = free_all_lem ss m1 (xs ++ (s.id ∷ [])) h1 (omega (arith, l, cap)) in
      (
        m2,
        free_all_step s ss (settled ss) m m1 m2 e f,
        subst (Holds m2.free_schedulers) (append_assoc xs (s.id ∷ []) (scheduler_ids ev ss)) h2,
      )

  -- The program after its construction.
  abbrev pub started :
      List (Scheduler ev) → BitstreamManager docs → ℤ → FreeSchedulers ev → Global ev docs xml
  started ss bits fd m = record {
    schedulers = settled ss;
    free = m;
    dispatcher = new_dispatcher ev (length ss);
    bits_manager = bits;
    tracker = new_tracker ev bits.kernel_bitstream_struct_map ss;
    bits_check = bits.xml_files_list;
    wg_size_check = insert_sizes bits.kernel_bitstream_struct_map [];
    unimem_fd = fd;
  }

  pub new_global_steps :
      (config_path : Option Name) (open_file : Name → ℤ) (top : xml.Node) (ss : List (Scheduler ev))
      (bits : BitstreamManager docs) (fd : ℤ) (m : FreeSchedulers ev)
      → new_config xml config_path (some default_root) ≡ ok top
      → create_schedulers xml ev (get_values_for_key xml top prs (pr_extractors xml) []).1 ≡ ok ss
      → Bitstreams.new_manager docs
          (get_string xml top bitstreams_path none).1
          (some (get_bool xml top enable_bitstream_mmap false).1)
        ≡ ok bits
      → Unimem.new_manager (get_string xml top unimem_driver_path none).1 open_file ≡ ok fd
      → free_all ev docs xml ss (new_manager ev (length ss)) ≡ ok (settled ss, m)
      → new_global ev docs xml config_path open_file ≡ ok (started ss bits fd m)
  unfolding new_global new_sched_config
  new_global_steps config_path open_file top ss bits fd m e1 e2 e3 e4 e5 =
      ground (arith, e1, e2, e3, e4, e5)
