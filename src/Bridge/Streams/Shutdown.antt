-- ===== src/Bridge/Streams/Shutdown.antt =====
-- `cleanup` of the stream registry of src/bridge/stream-registry.ts.
use mlx_serving.Prelude.{
  ℕ, ◌≡◌, refl, subst, true, false, some, [], ◌∷◌, String, ◌==◌, string_eq, nat_eq, if◌then◌else◌,
  if_both, arith, inl, inr, All, ==-cases,
}
use mlx_serving.JsMap.{JsMap, get, delete, Distinct, delete-Distinct, get-delete_cases, AreIn-self}
use mlx_serving.Bridge.Streams.Types.{StreamHandle, StreamRegistry, rejected, shutdown}
use mlx_serving.Bridge.Streams.Register.{settle}
use mlx_serving.Bridge.Streams.Chunks.{}
use mlx_serving.Bridge.Streams.Ends.{shut_all, cleanup}
use mlx_serving.Bridge.Streams.Machine.{}
use mlx_serving.Bridge.Streams.Ledger.{settlements-shut_all, unfinished-All}
use mlx_serving.Bridge.Streams.Timers.{}
use mlx_serving.Bridge.Streams.Orderly.{IsOrderly}
use mlx_serving.Prelude.{==_refl}
use mlx_serving.JsMap.{get-delete}

module _ {F : Type 0} where
  get-All :
      (P : StreamHandle F → Type 0) (k : String) (m : JsMap String (StreamHandle F))
      {h : StreamHandle F}
      → All (λ p. P p.1) m
      → get k m ≡ some h
      → P h
  unfolding get
  get-All P k [] a e = absurd (cc)
  get-All P k ((j, x) ∷ m) {h} a e = elim (==-cases j k) [
    | inl i ↦ subst P (ground (arith, i.0)) a.0
    | inr i ↦ get-All P k m a.1 (ground (arith, i.0))
  ]

  -- What stays of the timers and of the abort handlers when every stream is shut down.
  record Shut (handles : JsMap String (StreamHandle F)) (r r' : StreamRegistry F) : Type 0 where
    timers_distinct : Distinct r'.timers
    handlers_distinct : Distinct r'.abort_handlers
    created_same : r'.total_streams_created ≡ r.total_streams_created
    timers_left :
        (n : ℕ) (k : String)
        → get n r'.timers ≡ some k
        → (get n r.timers ≡ some k) × All (λ p. (p.1.promise == n) ≡ false) handles
    handlers_left :
        (n : ℕ) (k : String)
        → get n r'.abort_handlers ≡ some k
        → (get n r.abort_handlers ≡ some k)
          × All (λ p. p.1.has_signal ≡ true → (p.1.promise == n) ≡ false) handles

  handler_left :
      (n : ℕ) (j : String) (h : StreamHandle F) (r : StreamRegistry F)
      → Distinct r.abort_handlers
      → get n (if h.has_signal then delete h.promise r.abort_handlers else r.abort_handlers)
        ≡ some j
      → get n r.abort_handlers ≡ some j
  handler_left n j h r a g = ground (arith, get-delete n h.promise r.abort_handlers a)

  handler_ne :
      (n : ℕ) (j : String) (h : StreamHandle F) (r : StreamRegistry F)
      → Distinct r.abort_handlers
      → get n (if h.has_signal then delete h.promise r.abort_handlers else r.abort_handlers)
        ≡ some j
      → h.has_signal ≡ true
      → (h.promise == n) ≡ false
  handler_ne n j h r a g s = ground (arith, get-delete n h.promise r.abort_handlers a)

  Shut-settle :
      (n : ℕ) (handles : JsMap String (StreamHandle F)) (r r' : StreamRegistry F)
      → Shut handles (settle n (rejected shutdown) r) r'
      → Shut handles r r'
  unfolding settle
  Shut-settle n handles r r' s = record {
    timers_distinct = s.timers_distinct;
    handlers_distinct = s.handlers_distinct;
    created_same = s.created_same;
    timers_left = s.timers_left;
    handlers_left = s.handlers_left;
  }

  Shut-cons :
      (k : String) (h : StreamHandle F) (handles : JsMap String (StreamHandle F))
      (r r' : StreamRegistry F)
      → Distinct r.timers
      → Distinct r.abort_handlers
      → Shut handles
          (record r {
            timers = delete h.promise r.timers;
            abort_handlers =
                if h.has_signal then delete h.promise r.abort_handlers else r.abort_handlers;
          })
          r'
      → Shut ((k, h) ∷ handles) r r'
  Shut-cons k h handles r r' t a s = record {
    timers_distinct = s.timers_distinct;
    handlers_distinct = s.handlers_distinct;
    created_same = s.created_same;
    timers_left = λ n j q.
        let (g, rest) = s.timers_left n j q in
        let (ne, old) = get-delete_cases n h.promise r.timers t g in (old, (ne, rest));
    handlers_left = λ n j q.
        let (g, rest) = s.handlers_left n j q in
        (handler_left n j h r a g, (handler_ne n j h r a g, rest));
  }

  shut_all-Shut :
      (handles : JsMap String (StreamHandle F)) (r : StreamRegistry F)
      → Distinct r.timers
      → Distinct r.abort_handlers
      → Shut handles r (shut_all handles r)
  unfolding shut_all settle
  shut_all-Shut [] r t a = record {
    timers_distinct = t;
    handlers_distinct = a;
    created_same = refl;
    timers_left = λ n k q. (q, tt);
    handlers_left = λ n k q. (q, tt);
  }
  shut_all-Shut ((k, h) ∷ handles) r t a =
      let r' = record r {
        timers = delete h.promise r.timers;
        abort_handlers =
            if h.has_signal then delete h.promise r.abort_handlers else r.abort_handlers;
      } in
      let t' = delete-Distinct h.promise r.timers t in
      let a' : Distinct r'.abort_handlers =
        if_both (λ (m : JsMap ℕ String). Distinct m) h.has_signal
          (delete-Distinct h.promise r.abort_handlers a) a in
      if_both (λ x. Shut ((k, h) ∷ handles) r (shut_all handles x)) h.completed
        (Shut-cons k h handles r (shut_all handles r') t a (shut_all-Shut handles r' t' a'))
        (Shut-cons k h handles r (shut_all handles (settle h.promise (rejected shutdown) r')) t a (
          Shut-settle h.promise handles r' _
            (shut_all-Shut handles (settle h.promise (rejected shutdown) r') t' a')))

  pub cleanup-IsOrderly : (r : StreamRegistry F) → IsOrderly r → IsOrderly (cleanup r)
  unfolding cleanup get
  cleanup-IsOrderly r (l, a) =
      let s = shut_all-Shut r.streams r a.timers_distinct a.handlers_distinct in
      (
        record {
          distinct = tt;
          unfinished = λ k h e. cc;
          fresh = λ k h e. cc;
          once = λ n.
              let u =
                unfinished-All r.streams r.streams (AreIn-self r.streams l.distinct) l.unfinished in
              let m = settlements-shut_all n r.streams r u in
              let same = s.created_same in ground (arith, l.once n, m, same);
        },
        record {
          timers_distinct = s.timers_distinct;
          handlers_distinct = s.handlers_distinct;
          below = λ k h e. cc;
          timed = λ k h e. cc;
          pending = λ n k q.
              let (g, ne) = s.timers_left n k q in
              let (h, e, p) = a.pending n k g in
              let no = get-All (λ x. (x.promise == n) ≡ false) k r.streams ne e in
              absurd (ground (arith, ==_refl n));
          handled = λ n k q.
              let (g, ne) = s.handlers_left n k q in
              let (h, e, p, live) = a.handled n k g in
              let no =
                get-All (λ x. x.has_signal ≡ true → (x.promise == n) ≡ false) k r.streams ne e
                  live in
              absurd (ground (arith, ==_refl n));
        },
      )

  pub created-cleanup :
      (r : StreamRegistry F)
      → IsOrderly r
      → (cleanup r).total_streams_created ≡ r.total_streams_created
  unfolding cleanup
  created-cleanup r (l, a) =
      (shut_all-Shut r.streams r a.timers_distinct a.handlers_distinct).created_same

  pub streams-cleanup : (r : StreamRegistry F) → (cleanup r).streams ≡ []
  unfolding cleanup
  streams-cleanup r = refl
