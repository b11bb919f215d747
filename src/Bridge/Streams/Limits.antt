-- ===== src/Bridge/Streams/Limits.antt =====
-- The limit of streams in the registry of src/bridge/stream-registry.ts.
use mlx_serving.Prelude.{
  ℕ, ◌+◌, ◌≤◌, ◌<◌, ◌≡◌, ◌⊎◌, refl, sym, ap, ◌∙◌, subst, Bool, true, false, ◌&&◌, Option, none,
  some, List, ◌∷◌, String, string_eq, nat_eq, if_true, if_false, if_both, leb, length, arith,
  Bool-cases, inl, inr,
}
use mlx_serving.JsMap.{get, put, has, length-put_new, get-put_self}
use mlx_serving.Bridge.Streams.Types.{
  StreamHandle, StreamRegistry, RegisterResult, promised, already_registered, limit_exceeded,
  Signal, no_signal, live_signal, aborted_signal, rejected, aborted_before_registration,
}
use mlx_serving.Bridge.Streams.Register.{
  settle, effective_limit, new_handle, admit, enter, register,
}
use mlx_serving.Bridge.Streams.Ends.{get_active_count, adjust_stream_limits}

module _ {F : Type 0} where
  -- What `register` answers, and what it leaves.
  pub data Registered (r : StreamRegistry F) (k : String) (signal : Signal)
      : StreamRegistry F × RegisterResult → Type 0 where
    duplicate : has k r.streams ≡ true → Registered r k signal (r, already_registered)
    full :
        has k r.streams ≡ false
        → effective_limit r ≤ length r.streams
        → Registered r k signal (r, limit_exceeded (effective_limit r))
    aborted :
        (r' : StreamRegistry F)
        → has k r.streams ≡ false
        → length r.streams < effective_limit r
        → signal ≡ aborted_signal
        → r'.streams ≡ r.streams
        → r'.timers ≡ r.timers
        → r'.settled ≡ (r.total_streams_created, rejected aborted_before_registration) ∷ r.settled
        → Registered r k signal (r', promised r.total_streams_created)
    entered :
        (r' : StreamRegistry F) (h : StreamHandle F)
        → has k r.streams ≡ false
        → (signal ≡ no_signal) ⊎ (signal ≡ live_signal)
        → get k r'.streams ≡ some h
        → h.promise ≡ r.total_streams_created
        → length r'.streams ≡ length r.streams + 1
        → length r'.streams ≤ effective_limit r
        → r'.settled ≡ r.settled
        → Registered r k signal (r', promised r.total_streams_created)

  admit-Registered :
      (signal : Signal) (k : String) (h : StreamHandle F) (r : StreamRegistry F)
      → has k r.streams ≡ false
      → length r.streams < effective_limit r
      → h.stream_id ≡ k
      → h.promise ≡ r.total_streams_created
      → (signal ≡ no_signal) ⊎ (signal ≡ live_signal)
      → Registered r k signal (
        admit h (record r { total_streams_created = r.total_streams_created + 1 }),
        promised h.promise,
      )
  unfolding admit
  admit-Registered signal k h r a l i p s =
      let next = admit h (record r { total_streams_created = r.total_streams_created + 1 }) in
      let more = ap (λ j. length (put j h r.streams)) i ∙ length-put_new k h r.streams a in
      subst (λ n. Registered r k signal (next, promised n)) (sym p)
        (entered next h a s (ap (λ j. get k (put j h r.streams)) i ∙ get-put_self k h r.streams) p
          (omega (arith, more)) (omega (arith, more, l)) refl)

  enter-Registered :
      (signal : Signal) (k : String) (h : StreamHandle F) (r : StreamRegistry F)
      → has k r.streams ≡ false
      → length r.streams < effective_limit r
      → h.stream_id ≡ k
      → h.promise ≡ r.total_streams_created
      → Registered r k signal (
        enter signal h (record r { total_streams_created = r.total_streams_created + 1 }),
        promised h.promise,
      )
  unfolding enter settle admit
  enter-Registered no_signal k h r a l i p = admit-Registered no_signal k h r a l i p (inl refl)
  enter-Registered live_signal k h r a l i p = admit-Registered live_signal k h r a l i p (inr refl)
  enter-Registered aborted_signal k h r a l i p =
      let next = record r { total_streams_created = r.total_streams_created + 1 } in
      subst
        (λ n.
          Registered r k aborted_signal
            (settle h.promise (rejected aborted_before_registration) next, promised n))
        (sym p)
        (aborted (settle h.promise (rejected aborted_before_registration) next) a l refl refl refl
          (ap (λ n. (n, rejected aborted_before_registration) ∷ r.settled) p))

  -- `register` answers that the name is taken if it is, and else that the limit is exceeded if there
  -- are as many streams as the limit allows, and changes nothing in both cases; else it makes the
  -- next promise. With a signal that was aborted it rejects the promise, and neither the map nor
  -- the timers change; else the map has one stream more, under the name and with the promise, and
  -- no more streams than the limit.
  pub register-Registered :
      (r : StreamRegistry F) (k : String) (signal : Signal) (timeout : Option ℕ)
      (model_id : Option String) (now : ℕ)
      → Registered r k signal (register r k signal timeout model_id now)
  unfolding register
  register-Registered r k signal timeout model_id now = elim (Bool-cases (has k r.streams)) [
    | inl h ↦ subst (Registered r k signal) (sym (if_true _ _ h)) (duplicate h)
    | inr h ↦ elim (Bool-cases (leb (effective_limit r) (length r.streams))) [
      | inl f ↦
          subst (Registered r k signal) (sym (if_false _ _ h ∙ if_true _ _ f))
            (full h (ground (arith, f)))
      | inr f ↦ subst (Registered r k signal) (sym (if_false _ _ h ∙ if_false _ _ f)) (
          enter-Registered signal k (new_handle r k signal timeout model_id now) r h
            (ground (arith, f)) (unfold new_handle in refl) (unfold new_handle in refl))
    ]
  ]

  -- Where the lower bound is at most the upper, moving the limit leaves it in its bounds if it was in
  -- them, whether or not the governor answers; and it puts the limit in them, wherever it was, if
  -- limits are adaptive and the governor answers.
  pub adjust_stream_limits-bounds :
      (r : StreamRegistry F) (answer : Option ℕ) (busy idle : ℕ → ℕ → Bool) (quick : List ℕ → Bool)
      → r.config.min_stream_limit ≤ r.config.max_stream_limit
      → ((r.config.min_stream_limit ≤ r.current_stream_limit)
          × (r.current_stream_limit ≤ r.config.max_stream_limit))
        ⊎ ((r.config.adaptive_limits_enabled ≡ true) × ((n : ℕ) × (answer ≡ some n)))
      → (r.config.min_stream_limit
          ≤ (adjust_stream_limits r answer busy idle quick).current_stream_limit)
        × ((adjust_stream_limits r answer busy idle quick).current_stream_limit
            ≤ r.config.max_stream_limit)
  unfolding adjust_stream_limits
  adjust_stream_limits-bounds r answer busy idle quick m (inr (on, (n, e))) =
      subst
        (λ a.
          (r.config.min_stream_limit
            ≤ (adjust_stream_limits r a busy idle quick).current_stream_limit)
          × ((adjust_stream_limits r a busy idle quick).current_stream_limit
              ≤ r.config.max_stream_limit))
        (sym e)
        (subst
          (λ (x : StreamRegistry F).
            (r.config.min_stream_limit ≤ x.current_stream_limit)
            × (x.current_stream_limit ≤ r.config.max_stream_limit))
          (sym (if_true _ r on)) (omega (arith, m), omega (arith, m)))
  adjust_stream_limits-bounds r answer busy idle quick m (inl (l, u)) =
      let within : StreamRegistry F → Type 0 = λ x.
        (r.config.min_stream_limit ≤ x.current_stream_limit)
        × (x.current_stream_limit ≤ r.config.max_stream_limit) in
      let bounded : ℕ → Type 0 =
        λ x. (r.config.min_stream_limit ≤ x) × (x ≤ r.config.max_stream_limit) in
      elim answer as (λ a. within (adjust_stream_limits r a busy idle quick)) [
        | none ↦
            if_both within r.config.adaptive_limits_enabled
              (if_both bounded (idle (get_active_count r) r.current_stream_limit)
                (omega (arith, m, u), omega (arith, m, u))
                (if_both bounded
                  (busy (get_active_count r) r.current_stream_limit && quick r.ttft_samples)
                  (omega (arith, m, l), omega arith) (l, u)))
              (l, u)
        | some n ↦
            if_both within r.config.adaptive_limits_enabled (omega (arith, m), omega (arith, m))
              (l, u)
      ]
