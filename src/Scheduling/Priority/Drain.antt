-- ===== src/Scheduling/Priority/Drain.antt =====
-- The recursion of `scheduleNext` in src/scheduling/PriorityScheduler.ts.
use mlx_serving.Prelude.{
  ℕ, zero, suc, ◌+◌, ◌≤◌, ◌<◌, ◌≡◌, refl, sym, ap, ◌∙◌, subst, Bool, true, false, not, Option, none,
  some, List, [], ◌∷◌, ◌++◌, String, ◌==◌, ==_refl, ==-cases, string_eq, nat_eq, if◌then◌else◌,
  if_false, if_both, leb, length, filter_b, All, arith, Option-cases, List-cases, inl, inr,
}
use mlx_serving.JsMap.{JsMap, get, put, total, total-put, keys-put, put-Distinct, get-put_cases}
use mlx_serving.Scheduling.Priority.{
  RequestMetadata, SchedulableRequest, PrioritySchedulerConfig, PriorityScheduler,
  get_total_queue_size, choose, remove_id, remove_from_queue, make_scheduling_decision, serve,
  execute_request, schedule_next, tenant_of,
}
use mlx_serving.Scheduling.Priority.Select.{has_id, IsPlaced, IsFound, choose-none, choose-IsFound}

module _ {T : Type 0} where
  -- How many of the requests have the id.
  abbrev pub count_id : String → List (SchedulableRequest T) → ℕ
  count_id id [] = 0
  count_id id (r ∷ queue) = (if r.metadata.id == id then 1 else 0) + count_id id queue

  pub count_id-append :
      (id : String) (xs ys : List (SchedulableRequest T))
      → count_id id (xs ++ ys) ≡ count_id id xs + count_id id ys
  count_id-append id [] ys = omega arith
  count_id-append id (r ∷ xs) ys = omega (arith, count_id-append id xs ys)

  pub length-remove_id :
      (id : String) (queue : List (SchedulableRequest T))
      → has_id id queue ≡ true
      → length (remove_id id queue) + 1 ≡ length queue
  unfolding remove_id
  length-remove_id id [] h = absurd (cc)
  length-remove_id id (r ∷ queue) h = ground (arith, length-remove_id id queue)

  count_id-remove_id :
      (id : String) (r : SchedulableRequest T) (queue : List (SchedulableRequest T))
      → has_id r.metadata.id queue ≡ true
      → count_id id (remove_id r.metadata.id queue) + count_id id (r ∷ []) ≡ count_id id queue
  unfolding remove_id
  count_id-remove_id id r [] h = absurd (cc)
  count_id-remove_id id r (x ∷ queue) h = elim (==-cases x.metadata.id r.metadata.id) [
    | inl e ↦
        let same = ap {B = ℕ} (λ (j : String). if j == id then 1 else 0) e.1 in
        ground (arith, e.0, same)
    | inr e ↦ ground (arith, e.0, count_id-remove_id id r queue)
  ]

  pub remove_id-All :
      (P : SchedulableRequest T → Type 0) (id : String) (queue : List (SchedulableRequest T))
      → All P queue
      → All P (remove_id id queue)
  unfolding remove_id
  remove_id-All P id [] a = tt
  remove_id-All P id (r ∷ queue) a =
      if_both (λ q. All P q) (r.metadata.id == id) a.1 (a.0, remove_id-All P id queue a.1)

  pub put-IsPlaced :
      (p : ℕ) (old queue : List (SchedulableRequest T))
      (queues : JsMap ℕ (List (SchedulableRequest T)))
      → get p queues ≡ some old
      → All (λ r. r.metadata.priority ≡ p) queue
      → IsPlaced queues
      → IsPlaced (put p queue queues)
  put-IsPlaced p old queue queues e a i = record {
    five = keys-put p old queue queues e ∙ i.five;
    distinct = put-Distinct p queue queues i.distinct;
    placed = λ q other g. elim (get-put_cases q p queue queues g) [
      | inl (same, eq) ↦
          subst (λ n. All (λ r. r.metadata.priority ≡ n) other) same
            (subst (λ l. All (λ r. r.metadata.priority ≡ p) l) eq a)
      | inr (ne, old_one) ↦ i.placed q other old_one
    ];
  }

  -- What a removal leaves.
  pub record Removed (r : SchedulableRequest T) (s s' : PriorityScheduler T) : Type 0 where
    pub placed : IsPlaced s'.queues
    pub one_less : get_total_queue_size s' + 1 ≡ get_total_queue_size s
    pub counted :
        (id : String)
        → total (count_id id) s'.queues + count_id id (r ∷ []) ≡ total (count_id id) s.queues
    pub rest_same :
        (s'.executing ≡ s.executing) × (s'.resolved ≡ s.resolved) × (s'.config ≡ s.config)

  pub remove_from_queue-Removed :
      (r : SchedulableRequest T) (s : PriorityScheduler T)
      → IsPlaced s.queues
      → IsFound s.queues r
      → Removed r s (remove_from_queue r s)
  unfolding remove_from_queue
  remove_from_queue-Removed r s i (queue, e, h) =
      let p = r.metadata.priority in
      let l = length-remove_id r.metadata.id queue h in
      let t = total-put (λ q. length q) p queue (remove_id r.metadata.id queue) s.queues e in
      rw (e, remove_from_queue)
        (record {
          placed =
              put-IsPlaced p queue (remove_id r.metadata.id queue) s.queues e
                (remove_id-All (λ x. x.metadata.priority ≡ p) r.metadata.id queue
                  (i.placed p queue e))
                i;
          one_less = omega (arith, l, t);
          counted = λ id.
              let c = count_id-remove_id id r queue h in
              let u = total-put (count_id id) p queue (remove_id r.metadata.id queue) s.queues e in
              omega (arith, c, u);
          rest_same = (refl, refl, refl);
        })

  pub serve-same :
      (m : RequestMetadata) (now : ℕ) (s : PriorityScheduler T)
      → ((serve m now s).queues ≡ s.queues)
        × ((serve m now s).executing ≡ s.executing)
        × ((serve m now s).resolved ≡ s.resolved)
        × ((serve m now s).config ≡ s.config)
  unfolding serve
  serve-same m now s = elim (Option-cases (tenant_of m)) [
    | inl e ↦ rw (e, serve) (refl, refl, refl, refl)
    | inr (t, e) ↦ rw (e, serve) (refl, refl, refl, refl)
  ]

  pub execute_request-same :
      (r : SchedulableRequest T) (now : ℕ) (s : PriorityScheduler T)
      → s.executing ≡ []
      → ((execute_request r now s).queues ≡ s.queues)
        × ((execute_request r now s).executing ≡ [])
        × ((execute_request r now s).resolved ≡ s.resolved ++ r ∷ [])
        × ((execute_request r now s).config ≡ s.config)
  unfolding execute_request
  execute_request-same r now s e =
      let running = record s {
        executing = r.metadata.id ∷ s.executing;
        resolved = s.resolved ++ r ∷ [];
      } in
      let v = serve-same r.metadata now running in
      (
        v.0,
        ap (λ l. filter_b (λ i. not (i == r.metadata.id)) l) (v.1 ∙ ap (λ l. r.metadata.id ∷ l) e)
            ∙ ground (arith, ==_refl r.metadata.id),
        v.2,
        v.3,
      )

  -- What draining leaves: every queue empty, nothing executing, and every request resolved.
  pub record Drained (s s' : PriorityScheduler T) : Type 0 where
    pub placed : IsPlaced s'.queues
    pub emptied : get_total_queue_size s' ≡ 0
    pub idle : s'.executing ≡ []
    pub config_same : s'.config ≡ s.config
    pub all_resolved :
        (id : String)
        → count_id id s'.resolved ≡ count_id id s.resolved + total (count_id id) s.queues

  empty_counts :
      (id : String) (queues : JsMap ℕ (List (SchedulableRequest T)))
      → total (λ q. length q) queues ≡ 0
      → total (count_id id) queues ≡ 0
  empty_counts id [] e = refl
  empty_counts id ((p, queue) ∷ queues) e = elim (List-cases queue) [
    | inl n ↦
        let rest = empty_counts id queues (omega (arith, e)) in
        omega (arith, rest, ap (count_id id) n)
    | inr (x, xs, n) ↦ let l = ap (λ q. length q) n in absurd (omega (arith, l, e))
  ]

  pub decision_none :
      (fair : ℕ → Bool) (now : ℕ) (s : PriorityScheduler T)
      → choose fair now s ≡ none
      → make_scheduling_decision fair now s
        ≡ (record s { scheduling_decisions = s.scheduling_decisions + 1 }, none)
  unfolding make_scheduling_decision
  decision_none fair now s n = rw (n, make_scheduling_decision) refl

  pub decision_some :
      (fair : ℕ → Bool) (now : ℕ) (s : PriorityScheduler T) (r : SchedulableRequest T)
      → choose fair now s ≡ some r
      → make_scheduling_decision fair now s ≡ (
        remove_from_queue r (record s { scheduling_decisions = s.scheduling_decisions + 1 }),
        some r,
      )
  unfolding make_scheduling_decision
  decision_some fair now s r n = rw (n, make_scheduling_decision) refl

  pub schedule_next-Drained :
      (fuel : ℕ) (fair : ℕ → Bool) (now : ℕ) (s : PriorityScheduler T)
      → get_total_queue_size s < fuel
      → 1 ≤ s.config.max_concurrent
      → s.executing ≡ []
      → IsPlaced s.queues
      → Drained s (schedule_next fuel fair now s)
  unfolding schedule_next
  schedule_next-Drained zero fair now s l c e i = absurd (omega (arith, l))
  schedule_next-Drained (suc fuel) fair now s l c e i =
      let room : leb s.config.max_concurrent (length s.executing) ≡ false =
        ground (arith, c, ap (λ x. length x) e) in
      let counted = record s { scheduling_decisions = s.scheduling_decisions + 1 } in
      let goal : PriorityScheduler T × Option (SchedulableRequest T) → Type 0 = λ d.
        Drained s (elim d.1 as (λ x. PriorityScheduler T) [
          | none ↦ d.0
          | some r ↦ schedule_next fuel fair now (execute_request r now d.0)
        ]) in
      subst (Drained s) (sym (if_false s _ room)) (elim (Option-cases (choose fair now s)) [
        | inl n ↦ subst goal (sym (decision_none fair now s n)) (record {
          placed = i;
          emptied = choose-none fair now s i n;
          idle = e;
          config_same = refl;
          all_resolved = λ id. omega (arith, empty_counts id s.queues (choose-none fair now s i n));
        })
        | inr (r, n) ↦
            let removed = remove_from_queue-Removed r counted i (choose-IsFound fair now s r i n) in
            let left = remove_from_queue r counted in
            let x = execute_request-same r now left (removed.rest_same.0 ∙ e) in
            let after = execute_request r now left in
            let size = ap (total (λ q. length q)) x.0 in
            let d =
              schedule_next-Drained fuel fair now after (omega (arith, l, removed.one_less, size))
                (omega (
                  arith,
                  c,
                  ap (λ (g : PrioritySchedulerConfig). g.max_concurrent)
                      (x.3 ∙ removed.rest_same.2),
                ))
                x.1 (subst IsPlaced (sym x.0) removed.placed) in
            subst goal (sym (decision_some fair now s r n)) (record {
              placed = d.placed;
              emptied = d.emptied;
              idle = d.idle;
              config_same = d.config_same ∙ x.3 ∙ removed.rest_same.2;
              all_resolved = λ id.
                  let resolved =
                    ap (count_id id) (x.2 ∙ ap (λ l. l ++ r ∷ []) removed.rest_same.1)
                    ∙ count_id-append id s.resolved (r ∷ []) in
                  omega (
                    arith,
                    d.all_resolved id,
                    removed.counted id,
                    ap (total (count_id id)) x.0,
                    resolved,
                  );
            })
      ])
