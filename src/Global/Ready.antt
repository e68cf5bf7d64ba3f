-- ===== src/Global/Ready.antt =====
-- A program that has started is ready: its schedulers are free, and the first ndrange is routed.
use fpgaml.Common.{
  ℕ, suc, ◌<◌, ◌≡◌, ◌∙◌, ◌^◌, refl, sym, ap, false, Option, none, some, List, [], ◌∷◌, length,
  length-replicate, All, ok, arith,
}
use mathlib.Core.Path.{subst}
use fpgaml.Common.Int.{ℤ, pos}
use fpgaml.Common.Names.{Name}
use fpgaml.CircArray.{create}
use fpgaml.CircArray.Inv.{Holds, create-Holds}
use fpgaml.NdRange.{NdRange}
use fpgaml.AlgoSimple.{AlgoSimple}
use fpgaml.AlgoSimple
use fpgaml.Dispatcher.Reading.{new_dispatcher}
use fpgaml.EvTimer.{LibEv}
use fpgaml.FreeSchedulers.{FreeSchedulers, new_manager}
use fpgaml.Scheduler.{Scheduler}
use fpgaml.World.{World}
use fpgaml.Tracker.Costs.{new_tracker_lem}
use fpgaml.Bitstreams.{Documents, BitstreamManager, insert_sizes}
use fpgaml.Bitstreams
use fpgaml.Unimem
use fpgaml.Route.Fill.{HasCosts}
use fpgaml.Route.Submit.{HasRoom}
use fpgaml.Config.{
  ConfigXml, Tuple3, create_schedulers, default_root, new_config, get_string, get_bool,
  bitstreams_path, enable_bitstream_mmap, unimem_driver_path, get_values_for_key, prs,
  pr_extractors,
}
use fpgaml.Config.Schedulers.{HasBoard, ids_of, length-ids_of, scheduler_ids, create_schedulers_lem}
use fpgaml.Global.{Global, new_global}
use fpgaml.Global.Boot.{
  settled, settled-HasRoom, length-settled, free_all_lem, started, new_global_steps,
}

module _ (ev : LibEv) (docs : Documents) (xml : ConfigXml) where
  -- What a started program promises for its first ndrange: one scheduler at least, each with room
  -- for ranges, all of them free, and costs for every kernel on each of them.
  pub record IsReady (g : Global ev docs xml) (ids : List ℕ) : Type 0 where
    pub some_scheduler : 0 < length g.schedulers
    pub rooms : All (HasRoom ev) g.schedulers
    pub free : Holds g.free.free_schedulers ids
    pub listed : scheduler_ids ev g.schedulers ≡ ids
    pub islands : g.dispatcher.simple.num_islands ≡ length g.schedulers
    pub vectors : length g.dispatcher.simple.wgs_per_islands ≡ length g.schedulers
    pub costs : (kernel : Name) → HasCosts g.tracker kernel (length g.schedulers)

  ids-settled :
      (ss : List (Scheduler ev)) → scheduler_ids ev (settled ev docs xml ss) ≡ scheduler_ids ev ss
  ids-settled [] = refl
  ids-settled (s ∷ ss) = ap (λ k. s.id ∷ k) (ids-settled ss)

  length-scheduler_ids : (ss : List (Scheduler ev)) → length (scheduler_ids ev ss) ≡ length ss
  length-scheduler_ids [] = refl
  length-scheduler_ids (s ∷ ss) = ap suc (length-scheduler_ids ss)

  empty_list : (n : ℕ) → 0 < n → n < 2 ^ 31 → Holds (new_manager ev n).free_schedulers []
  unfolding new_manager
  empty_list n some_one small = create-Holds 0 n some_one small

  list_capacity : (n : ℕ) → (new_manager ev n).free_schedulers.capacity ≡ n
  unfolding new_manager create
  list_capacity n = refl

  started-IsReady :
      (ss : List (Scheduler ev)) (bits : BitstreamManager docs) (fd : ℤ) (m : FreeSchedulers ev)
      → 0 < length ss
      → All (HasRoom ev) ss
      → Holds m.free_schedulers (scheduler_ids ev ss)
      → IsReady (started ev docs xml ss bits fd m) (scheduler_ids ev ss)
  unfolding new_dispatcher AlgoSimple.create
  started-IsReady ss bits fd m pos_ rooms h =
      let l = length-settled ev docs xml ss in
      record {
        some_scheduler = omega (arith, l);
        rooms = settled-HasRoom ev docs xml ss rooms;
        free = h;
        listed = ids-settled ss;
        islands = sym l;
        vectors = length-replicate (length ss) (pos 0) ∙ sym l;
        costs = λ kernel i lt.
            new_tracker_lem ev bits.kernel_bitstream_struct_map ss kernel i (omega (arith, l));
      }

  -- Where the configuration, the bitstreams and the driver can be opened, and the configuration has
  -- schedulers whose boards' numbers are at most 3, the program starts and is ready, with the
  -- schedulers' numbers in the order of the configuration.
  pub new_global-IsReady :
      (config_path : Option Name) (open_file : Name → ℤ) (top : xml.Node) (ts : List Tuple3)
      (bits : BitstreamManager docs) (fd : ℤ)
      → new_config xml config_path (some default_root) ≡ ok top
      → (get_values_for_key xml top prs (pr_extractors xml) []).1 ≡ ts
      → All HasBoard ts
      → 0 < length ts
      → length ts < 2 ^ 31
      → Bitstreams.new_manager docs
          (get_string xml top bitstreams_path none).1
          (some (get_bool xml top enable_bitstream_mmap false).1)
        ≡ ok bits
      → Unimem.new_manager (get_string xml top unimem_driver_path none).1 open_file ≡ ok fd
      → (g : Global ev docs xml) × (new_global ev docs xml config_path open_file ≡ ok g)
        × IsReady g (ids_of ts)
  new_global-IsReady config_path open_file top ts bits fd e1 e2 boards pos_ small e3 e4 =
      let (ss, made, listed, rooms) = create_schedulers_lem xml ev ts boards in
      let n : length ss ≡ length ts =
        sym (length-scheduler_ids ss) ∙ ap length listed ∙ length-ids_of ts in
      let (m, e5, h) =
        free_all_lem ev docs xml ss (new_manager ev (length ss)) []
          (empty_list (length ss) (omega (arith, n)) (omega (arith, n)))
          (omega (arith, list_capacity (length ss))) in
      (
        started ev docs xml ss bits fd m,
        new_global_steps ev docs xml config_path open_file top ss bits fd m e1
            (ap (create_schedulers xml ev) e2 ∙ made) e3 e4 e5,
        subst (IsReady (started ev docs xml ss bits fd m)) listed
            (started-IsReady ss bits fd m (omega (arith, n)) rooms h),
      )

  -- The world of a started program, with one ndrange.
  abbrev pub first_world : Global ev docs xml → NdRange → World ev
  first_world g r = record {
    store = r ∷ [];
    schedulers = g.schedulers;
    free = g.free;
    tracker = g.tracker;
  }
