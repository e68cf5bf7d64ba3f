-- ===== src/NdRange/Completion.antt =====
-- What the end of a range does to the objects: decrement_wgrs_counter of cpp/ndrange.cc as a whole,
-- with set_as_complete of the ndrange's event and the ndrange's destructor.
use fpgaml.Common.{
  ℕ, zero, suc, ◌+◌, ◌-◌, ◌≤◌, ◌<◌, ◌⊎◌, inl, inr, ◌≡◌, ◌∙◌, ap, ◌^◌, refl, true, arith, Option,
  none, some, set, get_elem?, Outcome, ok, ◌>>=◌,
}
use native.Mathlib.Decide.{dec_lt}
use fpgaml.Objects.{
  Objects, Event, Kernel, complete, complete_event, event_down, kernel_down, ref_cnt_down,
  set_as_complete, feed, has,
}
use fpgaml.Objects.Counting.{get_set}
use fpgaml.Dispatcher.Handling.{has-feed}
use fpgaml.NdRange.{NdRange, decrement_wgrs_counter}
use fpgaml.NdRange.Life.{decrement_some, decrement_last}

-- A range ends: the last one completes the event and deletes the ndrange, which gives up its
-- references to its kernel and its event.
unfoldable pub end_range : NdRange → Objects → Outcome (Option NdRange × Objects)
end_range r o = elim (decrement_wgrs_counter r) [
  | some r' ↦ ok (some r', o)
  | none ↦ complete_event r.event o >>= λ o1.
      kernel_down r.kernel o1 >>= λ o2. event_down r.event o2 >>= λ o3. ok (none, o3)
]

-- `n` further ranges end after one has.
unfoldable pub end_more : ℕ → NdRange → Objects → Outcome (Option NdRange × Objects)
unfolding end_range
end_more zero r o = end_range r o
end_more (suc n) r o =
    end_range r o >>= λ (left, o'). elim left [ none ↦ ok (none, o') | some r' ↦ end_more n r' o' ]

-- The objects with the event complete and one reference less to it and to the kernel, and the
-- event's queue fed.
abbrev completed : NdRange → ℕ → Event → ℕ → Kernel → ℕ → Objects → Objects
completed r q e c k d o =
    let e1 = record e { event_state = complete } in
    let o1 = feed q (record o { events = set o.events r.event (some e1) }) in
    record o1 {
      kernels = set o.kernels r.kernel (some (record k { counter = suc d }));
      events = set o1.events r.event (some (record e1 { counter = suc c }));
    }

end_last :
    (r : NdRange) (o : Objects) (e : Event) (k : Kernel) (q c d : ℕ)
    → r.wgrs_in_the_wild ≡ 1
    → get_elem? o.events r.event ≡ some (some e)
    → e.on_complete ≡ some q
    → e.counter ≡ suc (suc c)
    → get_elem? o.kernels r.kernel ≡ some (some k)
    → k.counter ≡ suc (suc d)
    → end_range r o ≡ ok (none, completed r q e c k d o)
unfolding end_range complete_event set_as_complete kernel_down event_down ref_cnt_down
end_last r o e k q c d one at cb two atk twok =
    let last = decrement_last r one in
    let e1 = record e { event_state = complete } in
    let at1 = get_set o.events r.event (some e) (some e1) at in
    ground (arith, last, at, cb, two, atk, twok, at1)

-- The objects when the last range has ended: the event is complete, with its code as it was, and has
-- one reference less, as has the kernel, and the queue that waits for the event is fed.
pub record IsDone (r : NdRange) (e : Event) (k : Kernel) (q c d : ℕ) (o : Objects) : Type 0 where
  pub event :
      get_elem? o.events r.event
      ≡ some (some (record e { event_state = complete; counter = suc c }))
  pub kernel : get_elem? o.kernels r.kernel ≡ some (some (record k { counter = suc d }))
  pub fed : has q o.pending ≡ true

completed-IsDone :
    (r : NdRange) (o : Objects) (e : Event) (k : Kernel) (q c d : ℕ)
    → get_elem? o.events r.event ≡ some (some e)
    → get_elem? o.kernels r.kernel ≡ some (some k)
    → IsDone r e k q c d (completed r q e c k d o)
completed-IsDone r o e k q c d at atk =
    let e1 = record e { event_state = complete } in
    let at1 = get_set o.events r.event (some e) (some e1) at in
    record {
      event =
          get_set (set o.events r.event (some e1)) r.event (some e1)
            (some (record e1 { counter = suc c })) at1;
      kernel = get_set o.kernels r.kernel (some k) (some (record k { counter = suc d })) atk;
      fed = has-feed q (record o { events = set o.events r.event (some e1) });
    }

end_some :
    (r : NdRange) (o : Objects)
    → 1 < r.wgrs_in_the_wild
    → r.wgrs_in_the_wild < 2 ^ 32
    → end_range r o ≡ ok (some (record r { wgrs_in_the_wild = r.wgrs_in_the_wild - 1 }), o)
unfolding end_range
end_some r o big fit = let d = decrement_some r big fit in ground (arith, d)

end_more_step :
    (n : ℕ) (r r' : NdRange) (o : Objects)
    → end_range r o ≡ ok (some r', o)
    → end_more (suc n) r o ≡ end_more n r' o
unfolding end_more
end_more_step n r r' o e = ground (arith, e)

end_more_last : (r : NdRange) (o : Objects) → end_more 0 r o ≡ end_range r o
unfolding end_more
end_more_last r o = refl

end_more_waits :
    (n : ℕ) (r : NdRange) (o : Objects)
    → suc n < r.wgrs_in_the_wild
    → r.wgrs_in_the_wild < 2 ^ 32
    → end_more n r o ≡ ok (some (record r { wgrs_in_the_wild = r.wgrs_in_the_wild - suc n }), o)
end_more_waits zero r o more fit = end_more_last r o ∙ end_some r o (omega arith) fit
end_more_waits (suc n) r o more fit =
    let r' : NdRange = record r { wgrs_in_the_wild = r.wgrs_in_the_wild - 1 } in
    let left : r.wgrs_in_the_wild - 1 - suc n ≡ r.wgrs_in_the_wild - suc (suc n) = omega arith in
    end_more_step n r r' o (end_some r o (omega arith) fit)
    ∙ end_more_waits n r' o (omega arith) (omega arith)
    ∙ ap (λ x. ok (some (record r { wgrs_in_the_wild = x }), o)) left

end_more_done :
    (n : ℕ) (r : NdRange) (o : Objects) (e : Event) (k : Kernel) (q c d : ℕ)
    → suc n ≡ r.wgrs_in_the_wild
    → r.wgrs_in_the_wild < 2 ^ 32
    → get_elem? o.events r.event ≡ some (some e)
    → e.on_complete ≡ some q
    → e.counter ≡ suc (suc c)
    → get_elem? o.kernels r.kernel ≡ some (some k)
    → k.counter ≡ suc (suc d)
    → end_more n r o ≡ ok (none, completed r q e c k d o)
end_more_done zero r o e k q c d all fit at cb two atk twok =
    end_more_last r o ∙ end_last r o e k q c d (omega arith) at cb two atk twok
end_more_done (suc n) r o e k q c d all fit at cb two atk twok =
    let r' : NdRange = record r { wgrs_in_the_wild = r.wgrs_in_the_wild - 1 } in
    end_more_step n r r' o (end_some r o (omega arith) fit)
    ∙ end_more_done n r' o e k q c d (omega arith) (omega arith) at cb two atk twok

-- Of the ranges in the wild `n` and one more end. The event of the ndrange, which has a callback and,
-- like the kernel, another reference, is complete when these were all, and not before: with fewer the
-- objects stay as they are, and the ndrange has that many ranges less in the wild; with all of them
-- the event is complete, its queue is fed, the ndrange is deleted, and the event and the kernel have
-- one reference less.
pub end_more_lem :
    (n : ℕ) (r : NdRange) (o : Objects) (e : Event) (k : Kernel) (q c d : ℕ)
    → suc n ≤ r.wgrs_in_the_wild
    → r.wgrs_in_the_wild < 2 ^ 32
    → get_elem? o.events r.event ≡ some (some e)
    → e.on_complete ≡ some q
    → e.counter ≡ suc (suc c)
    → get_elem? o.kernels r.kernel ≡ some (some k)
    → k.counter ≡ suc (suc d)
    → ((r' : NdRange) × (suc n < r.wgrs_in_the_wild)
        × (end_more n r o ≡ ok (some r', o))
        × (r'.wgrs_in_the_wild + suc n ≡ r.wgrs_in_the_wild))
      ⊎ ((o' : Objects) × (suc n ≡ r.wgrs_in_the_wild)
          × (end_more n r o ≡ ok (none, o'))
          × IsDone r e k q c d o')
end_more_lem n r o e k q c d le fit at cb two atk twok = elim (dec_lt (suc n) r.wgrs_in_the_wild) [
  | yes more ↦ inl (
    record r { wgrs_in_the_wild = r.wgrs_in_the_wild - suc n },
    more,
    end_more_waits n r o more fit,
    omega arith,
  )
  | no all ↦ inr (
    completed r q e c k d o,
    omega arith,
    end_more_done n r o e k q c d (omega arith) fit at cb two atk twok,
    completed-IsDone r o e k q c d at atk,
  )
]
