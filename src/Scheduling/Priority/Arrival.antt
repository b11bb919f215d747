-- ===== src/Scheduling/Priority/Arrival.antt =====
-- The order in which src/scheduling/PriorityScheduler.ts resolves what is scheduled.
use mlx_serving.Prelude.{
  ℕ, zero, suc, ◌+◌, ◌≤◌, ◌≡◌, refl, sym, ap, ◌∙◌, subst, Bool, false, Option, none, some, List, [],
  ◌∷◌, ◌++◌, ==-cases, string_eq, nat_eq, if_false, if_both, leb, length, All, arith, Option-cases,
  List-cases, inl, inr,
}
use mathlib.Core.List.{append_assoc, append-nil}
use mlx_serving.JsMap.{JsMap, get, put, total, total-put, get-put_cases}
use mlx_serving.Scheduling.Priority.{
  RequestMetadata, SchedulableRequest, PrioritySchedulerConfig, PriorityScheduler,
  get_total_queue_size, choose, remove_id, remove_from_queue, execute_request, schedule_next,
  tenant_of, count_queued, enqueue, schedule, Scheduled, accepted,
}
use mlx_serving.Scheduling.Priority.Select.{IsPlaced, AllQueued, choose-All, choose-IsFound}
use mlx_serving.Scheduling.Priority.Aging.{apply_aging, apply_aging-IsPlaced}
use mlx_serving.Scheduling.Priority.Drain.{
  remove_id-All, put-IsPlaced, remove_from_queue-Removed, execute_request-same, decision_none,
  decision_some, schedule_next-Drained,
}

module _ {T : Type 0} where
  -- Resolved requests are added at the end, and have what all that waited have.
  record Appended (P : SchedulableRequest T → Type 0) (s s' : PriorityScheduler T) : Type 0 where
    added : List (SchedulableRequest T)
    same : s'.resolved ≡ s.resolved ++ added
    all : All P added
    size : length added + get_total_queue_size s' ≡ get_total_queue_size s

  remove-AllQueued :
      (P : SchedulableRequest T → Type 0) (r : SchedulableRequest T) (s : PriorityScheduler T)
      → AllQueued P s.queues
      → AllQueued P (remove_from_queue r s).queues
  unfolding remove_from_queue
  remove-AllQueued P r s a = elim (Option-cases (get r.metadata.priority s.queues)) [
    | inl e ↦ rw (e, remove_from_queue) a
    | inr (queue, e) ↦
        rw (e, remove_from_queue)
          (λ p q g.
            elim (get-put_cases p r.metadata.priority (remove_id r.metadata.id queue) s.queues g) [
              | inl (i, same) ↦
                  subst (λ l. All P l) same
                    (remove_id-All P r.metadata.id queue (a r.metadata.priority queue e))
              | inr (ne, old) ↦ a p q old
            ])
  ]

  schedule_next-Appended :
      (P : SchedulableRequest T → Type 0) (fuel : ℕ) (fair : ℕ → Bool) (now : ℕ)
      (s : PriorityScheduler T)
      → 1 ≤ s.config.max_concurrent
      → s.executing ≡ []
      → IsPlaced s.queues
      → AllQueued P s.queues
      → Appended P s (schedule_next fuel fair now s)
  unfolding schedule_next
  schedule_next-Appended P zero fair now s c e i a = record {
    added = [];
    same = sym (append-nil s.resolved);
    all = tt;
    size = omega arith;
  }
  schedule_next-Appended P (suc fuel) fair now s c e i a =
      let room : leb s.config.max_concurrent (length s.executing) ≡ false =
        ground (arith, c, ap (λ x. length x) e) in
      let counted = record s { scheduling_decisions = s.scheduling_decisions + 1 } in
      let goal : PriorityScheduler T × Option (SchedulableRequest T) → Type 0 = λ d.
        Appended P s (elim d.1 as (λ x. PriorityScheduler T) [
          | none ↦ d.0
          | some r ↦ schedule_next fuel fair now (execute_request r now d.0)
        ]) in
      subst (Appended P s) (sym (if_false s _ room)) (elim (Option-cases (choose fair now s)) [
        | inl n ↦ subst goal (sym (decision_none fair now s n)) (record {
          added = [];
          same = sym (append-nil s.resolved);
          all = tt;
          size = omega arith;
        })
        | inr (r, n) ↦
            let removed = remove_from_queue-Removed r counted i (choose-IsFound fair now s r i n) in
            let left = remove_from_queue r counted in
            let x = execute_request-same r now left (removed.rest_same.0 ∙ e) in
            let after = execute_request r now left in
            let d =
              schedule_next-Appended P fuel fair now after
                (omega (
                  arith,
                  c,
                  ap (λ (g : PrioritySchedulerConfig). g.max_concurrent)
                      (x.3 ∙ removed.rest_same.2),
                ))
                x.1 (subst IsPlaced (sym x.0) removed.placed)
                (subst (λ q. AllQueued P q) (sym x.0) (remove-AllQueued P r counted a)) in
            subst goal (sym (decision_some fair now s r n)) (record {
              added = r ∷ d.added;
              same =
                  d.same
                  ∙ ap (λ l. l ++ d.added) (x.2 ∙ ap (λ l. l ++ r ∷ []) removed.rest_same.1)
                  ∙ append_assoc s.resolved (r ∷ []) d.added;
              all = (choose-All P fair now s r i.distinct a n, d.all);
              size = omega (arith, d.size, removed.one_less, ap (total (λ q. length q)) x.0);
            })
      ])

  -- No request waits or is being executed.
  pub record IsIdle (s : PriorityScheduler T) : Type 0 where
    pub placed : IsPlaced s.queues
    pub empty : get_total_queue_size s ≡ 0
    pub none_executing : s.executing ≡ []
    pub has_room : 1 ≤ s.config.max_concurrent
    pub has_queue : 1 ≤ s.config.max_queue_size

  pub empty_queue :
      (p : ℕ) (queue : List (SchedulableRequest T)) (queues : JsMap ℕ (List (SchedulableRequest T)))
      → total (λ q. length q) queues ≡ 0
      → get p queues ≡ some queue
      → queue ≡ []
  unfolding get
  empty_queue p queue [] e g = absurd (cc)
  empty_queue p queue ((k, q) ∷ queues) e g = elim (==-cases k p) [
    | inl i ↦ elim (List-cases q) [
      | inl n ↦ ground (arith, i.0, n)
      | inr (x, xs, n) ↦ let l = ap (λ y. length y) n in absurd (omega (arith, l, e))
    ]
    | inr i ↦ empty_queue p queue queues (omega (arith, e)) (ground (arith, i.0))
  ]

  count_queued-same :
      (m : RequestMetadata) (s : PriorityScheduler T)
      → ((count_queued m s).queues ≡ s.queues)
        × ((count_queued m s).executing ≡ s.executing)
        × ((count_queued m s).resolved ≡ s.resolved)
        × ((count_queued m s).config ≡ s.config)
  unfolding count_queued
  count_queued-same m s = elim (Option-cases (tenant_of m)) [
    | inl e ↦ rw (e, count_queued) (refl, refl, refl, refl)
    | inr (t, e) ↦ rw (e, count_queued) (refl, refl, refl, refl)
  ]

  one_of :
      (r : SchedulableRequest T) (xs : List (SchedulableRequest T))
      → All (λ x. x ≡ r) xs
      → length xs ≡ 1
      → xs ≡ r ∷ []
  one_of r [] a l = absurd (omega (arith, l))
  one_of r (x ∷ []) a l = ap (λ y. y ∷ []) a.0
  one_of r (x ∷ y ∷ xs) a l = absurd (omega (arith, l))

  -- What `schedule` of an idle scheduler does, where the request's priority is one of the five.
  pub schedule-IsIdle :
      (fair : ℕ → Bool) (now : ℕ) (s : PriorityScheduler T) (r : SchedulableRequest T)
      (queue : List (SchedulableRequest T))
      → IsIdle s
      → get r.metadata.priority s.queues ≡ some queue
      → ((schedule fair now s r).1 ≡ accepted)
        × ((schedule fair now s r).0.resolved ≡ s.resolved ++ r ∷ [])
        × IsIdle (schedule fair now s r).0
  unfolding schedule enqueue
  schedule-IsIdle fair now s r queue i e =
      let p = r.metadata.priority in
      let q = count_queued r.metadata (enqueue r queue s) in
      let same = count_queued-same r.metadata (enqueue r queue s) in
      let free : leb s.config.max_queue_size (get_total_queue_size s) ≡ false =
        ground (arith, i.empty, i.has_queue) in
      let none_before = empty_queue p queue s.queues i.empty e in
      let placed : IsPlaced (put p (queue ++ r ∷ []) s.queues) =
        put-IsPlaced p queue (queue ++ r ∷ []) s.queues e
          (subst (λ l. All (λ x. x.metadata.priority ≡ p) (l ++ r ∷ [])) (sym none_before)
            (refl, tt))
          i.placed in
      let only : AllQueued (λ x. x ≡ r) (put p (queue ++ r ∷ []) s.queues) = λ k l g.
        elim (get-put_cases k p (queue ++ r ∷ []) s.queues g) [
          | inl (j, l_same) ↦
              subst (λ y. All (λ x. x ≡ r) y) l_same
                (subst (λ y. All (λ x. x ≡ r) (y ++ r ∷ [])) (sym none_before) (refl, tt))
          | inr (ne, old) ↦
              subst (λ y. All (λ x. x ≡ r) y) (sym (empty_queue k l s.queues i.empty old)) tt
        ] in
      let idle : q.executing ≡ [] = same.1 ∙ i.none_executing in
      let room : 1 ≤ q.config.max_concurrent =
        omega (arith, i.has_room, ap (λ (g : PrioritySchedulerConfig). g.max_concurrent) same.3) in
      let fuel = suc (get_total_queue_size q) in
      let d =
        schedule_next-Drained fuel fair now q (omega arith) room idle
          (subst IsPlaced (sym same.0) placed) in
      let a =
        schedule_next-Appended (λ x. x ≡ r) fuel fair now q room idle
          (subst IsPlaced (sym same.0) placed)
          (subst (λ m. AllQueued (λ x. x ≡ r) m) (sym same.0) only) in
      let one = total-put (λ y. length y) p queue (queue ++ r ∷ []) s.queues e in
      let size : length a.added ≡ 1 = omega (
        arith,
        a.size,
        d.emptied,
        one,
        i.empty,
        ap (total (λ y. length y)) same.0,
        ap (λ y. length y) none_before,
        ap (λ y. length (y ++ r ∷ [])) none_before,
      ) in
      let config_same = d.config_same ∙ same.3 in
      rw (e, schedule)
        (subst
          (λ (x : PriorityScheduler T × Scheduled).
            (x.1 ≡ accepted) × (x.0.resolved ≡ s.resolved ++ r ∷ []) × IsIdle x.0)
          (sym (if_false _ _ free))
          (
            refl,
            a.same
                ∙ ap (λ l. q.resolved ++ l) (one_of r a.added a.all size)
                ∙ ap (λ l. l ++ r ∷ []) same.2,
            record {
              placed = d.placed;
              empty = d.emptied;
              none_executing = d.idle;
              has_room = omega (
                arith,
                i.has_room,
                ap (λ (g : PrioritySchedulerConfig). g.max_concurrent) config_same,
              );
              has_queue = omega (
                arith,
                i.has_queue,
                ap (λ (g : PrioritySchedulerConfig). g.max_queue_size) config_same,
              );
            },
          ))

  pub schedule_invalid :
      (fair : ℕ → Bool) (now : ℕ) (s : PriorityScheduler T) (r : SchedulableRequest T)
      → get r.metadata.priority s.queues ≡ none
      → (schedule fair now s r).0 ≡ s
  unfolding schedule
  schedule_invalid fair now s r e =
      if_both (λ (x : PriorityScheduler T × Scheduled). x.0 ≡ s)
        (leb s.config.max_queue_size (get_total_queue_size s)) refl (rw e refl)

  pub apply_aging-IsIdle :
      (s : PriorityScheduler T) (now : ℕ) → IsIdle s → IsIdle (apply_aging s now)
  apply_aging-IsIdle s now i =
      let (placed, size) = apply_aging-IsPlaced s now i.placed in
      record {
        placed = placed;
        empty = size ∙ i.empty;
        none_executing = unfold apply_aging in i.none_executing;
        has_room = unfold apply_aging in i.has_room;
        has_queue = unfold apply_aging in i.has_queue;
      }
