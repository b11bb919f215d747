-- ===== src/Scheduling/Priority/Select.antt =====
-- Which request src/scheduling/PriorityScheduler.ts chooses.
use mlx_serving.Prelude.{
  ℕ, ◌+◌, ◌≡◌, refl, ap, ◌∙◌, subst, Bool, true, false, ◌||◌, none, some, List, [], ◌∷◌, String,
  ◌==◌, ==_refl, ==-cases, string_eq, nat_eq, if◌then◌else◌, if_both, ltb, length, All, arith,
  Bool-cases, Option-cases, List-cases, inl, inr,
}
use mlx_serving.JsMap.{JsMap, get, keys, Distinct, total, AreIn, AreIn-self}
use mlx_serving.Scheduling.Priority.{
  SchedulableRequest, PrioritySchedulerConfig, PriorityScheduler, get_total_queue_size, is_urgent,
  urgent_in, find_urgent_request, least, estimate_duration, pick, select_low_priority_request,
  select_next_request, choose,
}

module _ {T : Type 0} where
  abbrev pub has_id : String → List (SchedulableRequest T) → Bool
  has_id id [] = false
  has_id id (r ∷ queue) = r.metadata.id == id || has_id id queue

  -- The five queues, each with the requests of its priority.
  pub record IsPlaced (queues : JsMap ℕ (List (SchedulableRequest T))) : Type 0 where
    pub five : keys queues ≡ 0 ∷ 1 ∷ 2 ∷ 3 ∷ 4 ∷ []
    pub distinct : Distinct queues
    pub placed :
        (p : ℕ) (queue : List (SchedulableRequest T))
        → get p queues ≡ some queue
        → All (λ r. r.metadata.priority ≡ p) queue

  pub placed_from_entries :
      (p : ℕ) (queue : List (SchedulableRequest T)) (queues : JsMap ℕ (List (SchedulableRequest T)))
      → All (λ e. All (λ r. r.metadata.priority ≡ e.0) e.1) queues
      → get p queues ≡ some queue
      → All (λ r. r.metadata.priority ≡ p) queue
  unfolding get
  placed_from_entries p queue [] a e = absurd (cc)
  placed_from_entries p queue ((k, q) ∷ queues) a e = elim (==-cases k p) [
    | inl i ↦
        subst (λ (l : List (SchedulableRequest T)). All (λ r. r.metadata.priority ≡ p) l)
          (ground (arith, i.0)) (subst (λ n. All (λ r. r.metadata.priority ≡ n) q) i.1 a.0)
    | inr i ↦ placed_from_entries p queue queues a.1 (ground (arith, i.0))
  ]

  -- The queue of the request's priority has a request with its id.
  abbrev pub IsFound : JsMap ℕ (List (SchedulableRequest T)) → SchedulableRequest T → Type 0
  IsFound queues r =
      (queue : List (SchedulableRequest T)) × (get r.metadata.priority queues ≡ some queue)
      × (has_id r.metadata.id queue ≡ true)

  -- What holds of all requests in the queues holds of the one chosen.
  module _ (P : SchedulableRequest T → Type 0) where
    abbrev pub AllQueued : JsMap ℕ (List (SchedulableRequest T)) → Type 0
    AllQueued queues =
        (p : ℕ) (queue : List (SchedulableRequest T)) → get p queues ≡ some queue → All P queue

    urgent_in-All :
        (config : PrioritySchedulerConfig) (now p : ℕ) (queue : List (SchedulableRequest T))
        (r : SchedulableRequest T)
        → All P queue
        → urgent_in config now p queue ≡ some r
        → P r
    unfolding urgent_in
    urgent_in-All config now p [] r a e = absurd (cc)
    urgent_in-All config now p (x ∷ queue) r a e = elim (Bool-cases (is_urgent config now p x)) [
      | inl u ↦ subst P (ground (arith, u)) a.0
      | inr u ↦ urgent_in-All config now p queue r a.1 (ground (arith, u))
    ]

    find_urgent-All :
        (config : PrioritySchedulerConfig) (now : ℕ)
        (entries queues : JsMap ℕ (List (SchedulableRequest T))) (r : SchedulableRequest T)
        → AreIn entries queues
        → AllQueued queues
        → find_urgent_request config now entries ≡ some r
        → P r
    unfolding find_urgent_request
    find_urgent-All config now [] queues r i a e = absurd (cc)
    find_urgent-All config now ((p, queue) ∷ entries) queues r i a e =
        elim (Option-cases (urgent_in config now p queue)) [
          | inl u ↦ find_urgent-All config now entries queues r i.1 a (ground (arith, u))
          | inr (x, u) ↦ urgent_in-All config now p queue r (a p queue i.0) (ground (arith, u))
        ]

    least-All :
        (f : SchedulableRequest T → ℕ) (best : SchedulableRequest T)
        (queue : List (SchedulableRequest T))
        → P best
        → All P queue
        → P (least f best queue)
    unfolding least
    least-All f best [] b a = b
    least-All f best (r ∷ queue) b a =
        least-All f (if ltb (f r) (f best) then r else best) queue
          (if_both P (ltb (f r) (f best)) a.0 b) a.1

    pick-All :
        (c : SchedulableRequest T → List (SchedulableRequest T) → SchedulableRequest T)
        (ps : List ℕ) (queues : JsMap ℕ (List (SchedulableRequest T))) (r : SchedulableRequest T)
        → ((x : SchedulableRequest T) (xs : List (SchedulableRequest T))
            → P x
            → All P xs
            → P (c x xs))
        → AllQueued queues
        → pick c ps queues ≡ some r
        → P r
    unfolding pick
    pick-All c [] queues r k a e = absurd (cc)
    pick-All c (p ∷ ps) queues r k a e = elim (Option-cases (get p queues)) [
      | inl g ↦ pick-All c ps queues r k a (ground (arith, g))
      | inr (queue, g) ↦ elim (List-cases queue) [
        | inl n ↦ pick-All c ps queues r k a (ground (arith, g, n))
        | inr (x, xs, n) ↦
            let (b, rest) = subst (λ q. All P q) n (a p queue g) in
            subst P (ground (arith, g, n)) (k x xs b rest)
      ]
    ]

    next-All :
        (s : PriorityScheduler T) (r : SchedulableRequest T)
        → AllQueued s.queues
        → select_next_request s ≡ some r
        → P r
    unfolding select_next_request
    next-All s r a e =
        pick-All (if s.config.shortest_job_first then least estimate_duration else (λ x xs. x))
          (0 ∷ 1 ∷ 2 ∷ 3 ∷ 4 ∷ []) s.queues r
          (if_both
            (λ (c : SchedulableRequest T → List (SchedulableRequest T) → SchedulableRequest T).
              (x : SchedulableRequest T) (xs : List (SchedulableRequest T))
              → P x
              → All P xs
              → P (c x xs))
            s.config.shortest_job_first (λ x xs b l. least-All estimate_duration x xs b l)
            (λ x xs b l. b))
          a e

    low-All :
        (s : PriorityScheduler T) (r : SchedulableRequest T)
        → AllQueued s.queues
        → select_low_priority_request s ≡ some r
        → P r
    unfolding select_low_priority_request
    low-All s r a e =
        pick-All (least (λ x. x.metadata.queued_at)) (3 ∷ 4 ∷ []) s.queues r
          (λ x xs b l. least-All (λ x. x.metadata.queued_at) x xs b l) a e

    pub choose-All :
        (fair : ℕ → Bool) (now : ℕ) (s : PriorityScheduler T) (r : SchedulableRequest T)
        → Distinct s.queues
        → AllQueued s.queues
        → choose fair now s ≡ some r
        → P r
    unfolding choose
    choose-All fair now s r d a e =
        elim (Option-cases (find_urgent_request s.config now s.queues)) [
          | inr (x, u) ↦
              find_urgent-All s.config now s.queues s.queues r (AreIn-self s.queues d) a
                (ground (arith, u))
          | inl u ↦ elim (Bool-cases (fair (s.scheduling_decisions + 1))) [
            | inr f ↦ next-All s r a (ground (arith, u, f))
            | inl f ↦ elim (Option-cases (select_low_priority_request s)) [
              | inl l ↦ next-All s r a (ground (arith, u, f, l))
              | inr (x, l) ↦ low-All s r a (ground (arith, u, f, l))
            ]
          ]
        ]

  -- If no request is chosen, there is none.
  pick-none :
      (c : SchedulableRequest T → List (SchedulableRequest T) → SchedulableRequest T)
      (entries queues : JsMap ℕ (List (SchedulableRequest T)))
      → AreIn entries queues
      → pick c (keys entries) queues ≡ none
      → total (λ q. length q) entries ≡ 0
  unfolding pick
  pick-none c [] queues i e = refl
  pick-none c ((p, queue) ∷ entries) queues i e = elim (List-cases queue) [
    | inl n ↦
        let rest = pick-none c entries queues i.1 (ground (arith, i.0, n)) in
        omega (arith, rest, ap (λ q. length q) n)
    | inr (x, xs, n) ↦ absurd (ground (arith, i.0, n))
  ]

  pub choose-none :
      (fair : ℕ → Bool) (now : ℕ) (s : PriorityScheduler T)
      → IsPlaced s.queues
      → choose fair now s ≡ none
      → get_total_queue_size s ≡ 0
  unfolding choose select_next_request
  choose-none fair now s p e =
      pick-none (if s.config.shortest_job_first then least estimate_duration else (λ x xs. x))
        s.queues s.queues (AreIn-self s.queues p.distinct)
        (ap
            (λ ps.
              pick (if s.config.shortest_job_first then least estimate_duration else (λ x xs. x)) ps
                s.queues)
            p.five
          ∙ ground arith)

  All-has_id_cons :
      (x : SchedulableRequest T) (some_of queue : List (SchedulableRequest T))
      → All (λ r. has_id r.metadata.id queue ≡ true) some_of
      → All (λ r. has_id r.metadata.id (x ∷ queue) ≡ true) some_of
  All-has_id_cons x [] queue a = tt
  All-has_id_cons x (r ∷ some_of) queue a =
      (ground (arith, a.0), All-has_id_cons x some_of queue a.1)

  All-has_id :
      (queue : List (SchedulableRequest T)) → All (λ r. has_id r.metadata.id queue ≡ true) queue
  All-has_id [] = tt
  All-has_id (r ∷ queue) =
      (ground (arith, ==_refl r.metadata.id), All-has_id_cons r queue queue (All-has_id queue))

  All-IsFound :
      (queues : JsMap ℕ (List (SchedulableRequest T))) (p : ℕ)
      (some_of queue : List (SchedulableRequest T))
      → get p queues ≡ some queue
      → All (λ r. r.metadata.priority ≡ p) some_of
      → All (λ r. has_id r.metadata.id queue ≡ true) some_of
      → All (IsFound queues) some_of
  All-IsFound queues p [] queue e a h = tt
  All-IsFound queues p (r ∷ some_of) queue e a h =
      ((queue, ap (λ i. get i queues) a.0 ∙ e, h.0), All-IsFound queues p some_of queue e a.1 h.1)

  IsPlaced-AllFound :
      (queues : JsMap ℕ (List (SchedulableRequest T)))
      → IsPlaced queues
      → AllQueued (IsFound queues) queues
  IsPlaced-AllFound queues i p queue e =
      All-IsFound queues p queue queue e (i.placed p queue e) (All-has_id queue)

  -- A request that is chosen is in the queue of its priority.
  pub choose-IsFound :
      (fair : ℕ → Bool) (now : ℕ) (s : PriorityScheduler T) (r : SchedulableRequest T)
      → IsPlaced s.queues
      → choose fair now s ≡ some r
      → IsFound s.queues r
  choose-IsFound fair now s r i e =
      choose-All (IsFound s.queues) fair now s r i.distinct (IsPlaced-AllFound s.queues i) e
