-- ===== src/Config/Schedulers.antt =====
-- The schedulers that a configuration gives: all of them are idle, and listed in its order.
use fpgaml.Common.{
  ℕ, suc, ◌<◌, ◌≤◌, ◌≡◌, refl, ap, false, List, [], ◌∷◌, ◌++◌, ◌*◌, ◌==◌, ◌&&◌, Exception, length,
  All, ok, throw, arith,
}
use fpgaml.CircArray.{create}
use fpgaml.CircArray.Inv.{create-Holds}
use fpgaml.NdRange.{no_range}
use fpgaml.EvTimer.{LibEv}
use fpgaml.Scheduler.{Scheduler, new_scheduler, scheduler_id}
use fpgaml.Route.Submit.{HasRoom}
use fpgaml.Config.{ConfigXml, Tuple3, create_schedulers}

-- The largest number that a board may have is 3.
abbrev pub HasBoard : Tuple3 → Type 0
HasBoard ids = ids.board_id ≤ 3

abbrev pub ids_of : List Tuple3 → List ℕ
ids_of [] = []
ids_of (t ∷ ts) = scheduler_id t.board_id t.fpga_id t.pr_id ∷ ids_of ts

pub length-ids_of : (ts : List Tuple3) → length (ids_of ts) ≡ length ts
length-ids_of [] = refl
length-ids_of (t ∷ ts) = ap suc (length-ids_of ts)

module _ (ev : LibEv) where
  abbrev pub scheduler_ids : List (Scheduler ev) → List ℕ
  scheduler_ids [] = []
  scheduler_ids (s ∷ ss) = s.id ∷ scheduler_ids ss

  new_scheduler-HasRoom :
      (t : Tuple3)
      → HasBoard t
      → (s : Scheduler ev) × (new_scheduler ev t.board_id t.fpga_id t.pr_id ≡ ok s)
        × (s.id ≡ scheduler_id t.board_id t.fpga_id t.pr_id)
        × HasRoom ev s
  unfolding new_scheduler create
  new_scheduler-HasRoom t h =
      let s : Scheduler ev = record {
        in_queue = create no_range 100;
        id = scheduler_id t.board_id t.fpga_id t.pr_id;
        timer = ev.init;
        mock_would_need_reconf = false;
        end_time = 0;
        mem_base = t.board_id * 32;
        is_local = (t.board_id == 0) && (t.fpga_id == 1);
      } in
      (
        s,
        ground (arith, h),
        refl,
        (
          [],
          record {
            queue = create-Holds no_range 100 (omega arith) (omega arith);
            busy = λ ne. absurd (ne refl);
          },
          omega arith,
        ),
      )

module _ (xml : ConfigXml) (ev : LibEv) where
  create_none : create_schedulers xml ev [] ≡ ok []
  unfolding create_schedulers
  create_none = refl

  create_one :
      (t : Tuple3) (ts : List Tuple3) (s : Scheduler ev) (ss : List (Scheduler ev))
      → new_scheduler ev t.board_id t.fpga_id t.pr_id ≡ ok s
      → create_schedulers xml ev ts ≡ ok ss
      → create_schedulers xml ev (t ∷ ts) ≡ ok (s ∷ ss)
  unfolding create_schedulers
  create_one t ts s ss e f = ground (arith, e, f)

  -- Where every board's number is at most 3, the schedulers of a configuration are all created: each
  -- is idle and has room for ranges, and has the number of its place.
  pub create_schedulers_lem :
      (ts : List Tuple3)
      → All HasBoard ts
      → (ss : List (Scheduler ev)) × (create_schedulers xml ev ts ≡ ok ss)
        × (scheduler_ids ev ss ≡ ids_of ts)
        × All (HasRoom ev) ss
  create_schedulers_lem [] h = ([], create_none, refl, tt)
  create_schedulers_lem (t ∷ ts) (h, hs) =
      let (s, e, i, room) = new_scheduler-HasRoom ev t h in
      let (ss, f, is, rooms) = create_schedulers_lem ts hs in
      (s ∷ ss, create_one t ts s ss e f, (λ k. i k ∷ is k), (room, rooms))

  create_stops :
      (t : Tuple3) (ts : List Tuple3)
      → 3 < t.board_id
      → create_schedulers xml ev (t ∷ ts) ≡ throw Exception.runtime_error
  unfolding create_schedulers new_scheduler
  create_stops t ts h = ground (arith, h)

  create_throws :
      (t : Tuple3) (ts : List Tuple3) (s : Scheduler ev)
      → new_scheduler ev t.board_id t.fpga_id t.pr_id ≡ ok s
      → create_schedulers xml ev ts ≡ throw Exception.runtime_error
      → create_schedulers xml ev (t ∷ ts) ≡ throw Exception.runtime_error
  unfolding create_schedulers
  create_throws t ts s e f = ground (arith, e, f)

  -- A board with a larger number, after others that are in range, makes the configuration throw.
  pub create_schedulers_throws :
      (ts rest : List Tuple3) (bad : Tuple3)
      → All HasBoard ts
      → 3 < bad.board_id
      → create_schedulers xml ev (ts ++ (bad ∷ rest)) ≡ throw Exception.runtime_error
  create_schedulers_throws [] rest bad h big = create_stops bad rest big
  create_schedulers_throws (t ∷ ts) rest bad (h, hs) big =
      let (s, e, i, room) = new_scheduler-HasRoom ev t h in
      create_throws t (ts ++ (bad ∷ rest)) s e (create_schedulers_throws ts rest bad hs big)
