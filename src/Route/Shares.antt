-- ===== src/Route/Shares.antt =====
-- What the schedulers have been given when an ndrange is routed.
use fpgaml.Common.{ℕ, suc, ◌+◌, ◌≡◌, ◌⊎◌, some, List, [], ◌∷◌, ◌++◌}
use fpgaml.Common.Int.{ℤ, pos, ◌+ℤ◌, ◌*ℤ◌, wrap_int}
use fpgaml.NdRange.{WorkGroupRange}
use fpgaml.AlgoSimple.{AlgoSimple, unsuitable_island, at}
use fpgaml.EvTimer.{LibEv}
use fpgaml.Scheduler.{Scheduler}
use fpgaml.Scheduler.Laws.{Runs}
use fpgaml.Route.{to_size}

-- The cost of `x` workgroups on island `i`, without the work in progress.
abbrev pub share_cost : AlgoSimple → ℤ → ℕ → ℤ
share_cost s x i =
    wrap_int (x *ℤ at s.current_work_potential_cost i +ℤ at s.current_work_reconf_cost i)

module _ (ev : LibEv) where
  -- The scheduler `t` is `s` with one more range at the end of what it runs: that of the `k`
  -- workgroups of the ndrange `nd` from `start` on, with its end in `size_x`.
  pub record Gets (nd start k : ℕ) (cost : ℤ) (s t : Scheduler ev) : Type 0 where
    pub range : WorkGroupRange
    pub ranges : List WorkGroupRange
    pub before : Runs ev s ranges
    pub after : Runs ev t (ranges ++ (range ∷ []))
    pub same_id : t.id ≡ s.id
    pub parent : range.parent ≡ some nd
    pub starts : range.start_x ≡ start
    pub ends : range.size_x ≡ start + k
    pub costs : range.execution_cost ≡ to_size cost

  -- From island `i` and the workgroup `start` on, each island with workgroups in the distribution
  -- gets the next ones, as many as the distribution gives it, and the other schedulers stay as they
  -- are.
  pub data Shares (nd : ℕ) (s : AlgoSimple)
      : ℕ → ℕ → List ℤ → List (Scheduler ev) → List (Scheduler ev) → Type 0 where
    all_served : {i start : ℕ} → Shares nd s i start [] [] []
    passed :
        {i start : ℕ} {x : ℤ} {vs : List ℤ} {sc : Scheduler ev} {scs ts : List (Scheduler ev)}
        → (x ≡ unsuitable_island) ⊎ (x ≡ pos 0)
        → Shares nd s (i + 1) start vs scs ts
        → Shares nd s i start (x ∷ vs) (sc ∷ scs) (sc ∷ ts)
    served :
        {i start k : ℕ} {x : ℤ} {vs : List ℤ} {sc t : Scheduler ev} {scs ts : List (Scheduler ev)}
        → x ≡ pos (suc k)
        → Gets nd start (suc k) (share_cost s x i) sc t
        → Shares nd s (i + 1) (start + suc k) vs scs ts
        → Shares nd s i start (x ∷ vs) (sc ∷ scs) (t ∷ ts)
