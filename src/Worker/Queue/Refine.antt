-- ===== src/Worker/Queue/Refine.antt =====
-- The specification of a worker's request queue on the one list that it stands for, and that
-- `enqueue` and `dequeue` implement it.
use mlx_serving.Prelude.{
  ℕ, ◌≡◌, refl, Bool, true, false, Option, none, some, List, [], ◌∷◌, length, leb, if◌then◌else◌,
  arith, inl, inr, List-cases, ap, ◌∙◌,
}
use mlx_serving.Worker.Queue.{
  RequestPriority, QueuedRequest, reject, drop_low_priority, QueueConfig, RequestQueue, is_full,
  drop_low_priority_request, refuse, admit, enqueue, dequeue,
}
use mlx_serving.Worker.Queue.Order.{
  IsSorted, contents, insert_stable, drop_low, has_low, contents-push, push-IsSorted,
  drop_low-contents, get_depth-contents,
}

module _ {R : Type 0} where
  -- The specification of `enqueue` on the one list.
  unfoldable pub spec_enqueue :
      QueueConfig → QueuedRequest R → List (QueuedRequest R) → List (QueuedRequest R) × Bool
  spec_enqueue c x l =
      if leb c.max_depth (length l)
      then elim c.backpressure_strategy [
        | reject ↦ (l, false)
        | drop_low_priority ↦ if has_low l then (insert_stable x (drop_low l), true) else (l, false)
      ]
      else (insert_stable x l, true)

  -- The specification of `dequeue` on the one list.
  unfoldable pub spec_dequeue : List (QueuedRequest R) → List (QueuedRequest R) × Option R
  spec_dequeue [] = ([], none)
  spec_dequeue (x ∷ l) = (l, some x.request)

  abbrev item : R → RequestPriority → ℕ → QueuedRequest R
  item r p now = record { request = r; priority = p; enqueued_at = now }

  admit-contents :
      (q : RequestQueue R) (r : R) (p : RequestPriority) (now : ℕ)
      → IsSorted q
      → (contents (admit q r p now).0 ≡ insert_stable (item r p now) (contents q))
        × ((admit q r p now).1 ≡ true)
        × IsSorted (admit q r p now).0
  unfolding admit
  admit-contents q r p now s = (
    unfold contents in contents-push p q (item r p now) refl s,
    refl,
    let t = push-IsSorted p q (item r p now) refl s in
        record {
          high_sorted = t.high_sorted;
          medium_sorted = t.medium_sorted;
          low_sorted = t.low_sorted;
        },
  )

  is_full_lem : (q : RequestQueue R) → is_full q ≡ leb q.config.max_depth (length (contents q))
  unfolding is_full
  is_full_lem q = ap (leb q.config.max_depth) (get_depth-contents q)

  refuse-contents :
      (q : RequestQueue R)
      → IsSorted q
      → (contents (refuse q).0 ≡ contents q) × ((refuse q).1 ≡ false) × IsSorted (refuse q).0
  unfolding refuse contents
  refuse-contents q s = ground arith

  drop_none :
      (q : RequestQueue R)
      → IsSorted q
      → q.low_queue ≡ []
      → (drop_low_priority_request q ≡ (q, false)) × (has_low (contents q) ≡ false)
  unfolding drop_low_priority_request
  drop_none q s e = (rw e, (drop_low-contents q s).1 ∙ ap has_low e)

  drop_some :
      (q : RequestQueue R) (y : QueuedRequest R) (ys : List (QueuedRequest R))
      → IsSorted q
      → q.low_queue ≡ y ∷ ys
      → ((drop_low_priority_request q).1 ≡ true)
        × (contents (drop_low_priority_request q).0 ≡ drop_low (contents q))
        × (has_low (contents q) ≡ true)
        × IsSorted (drop_low_priority_request q).0
  unfolding drop_low_priority_request drop_low contents
  drop_some q y ys s e = (
    ground arith,
    ground (arith, drop_low-contents q s),
    ground (arith, drop_low-contents q s),
    ground arith,
  )

  -- On a queue whose items stand in the queues of their priorities, `enqueue` answers as the
  -- specification does and leaves the list that the specification leaves: in a full queue it
  -- refuses, or drops the oldest item of low priority if the strategy says so and there is one;
  -- else it inserts behind the items of the same or a higher priority. The items stay in the
  -- queues of their priorities.
  pub enqueue-refines :
      (q : RequestQueue R) (r : R) (p : RequestPriority) (now : ℕ)
      → IsSorted q
      → ((contents (enqueue q r p now).0, (enqueue q r p now).1)
          ≡ spec_enqueue q.config
              (record { request = r; priority = p; enqueued_at = now })
              (contents q))
        × IsSorted (enqueue q r p now).0
  unfolding enqueue spec_enqueue
  enqueue-refines q r p now s = elim (List-cases q.low_queue) [
    | inl e ↦
        ground
          (arith, is_full_lem q, drop_none q s e, refuse-contents q s, admit-contents q r p now s)
    | inr (y, ys, e) ↦ ground (
      arith,
      is_full_lem q,
      drop_some q y ys s e,
      refuse-contents q s,
      admit-contents q r p now s,
      admit-contents (drop_low_priority_request q).0 r p now,
    )
  ]

  -- `dequeue` delivers the head of the list, of the highest priority there is and the oldest of
  -- these, and leaves the tail; on an empty queue it delivers nothing. The items stay in the
  -- queues of their priorities.
  pub dequeue-refines :
      (q : RequestQueue R) (now : ℕ)
      → IsSorted q
      → ((contents (dequeue q now).0, (dequeue q now).1) ≡ spec_dequeue (contents q))
        × IsSorted (dequeue q now).0
  unfolding dequeue spec_dequeue contents
  dequeue-refines q now s = ground arith
