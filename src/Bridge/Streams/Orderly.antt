-- ===== src/Bridge/Streams/Orderly.antt =====
-- The promises and timers of src/bridge/stream-registry.ts, through `register` and the ends of a
-- stream.
use mlx_serving.Prelude.{
  ℕ, ◌+◌, ◌≡◌, refl, sym, ap, subst, Bool, false, ◌&&◌, Option, none, some, List, ◌∷◌, String,
  string_eq, nat_eq, if◌then◌else◌, if_false, if_both, leb, length, arith, Option-cases, inl, inr,
}
use mlx_serving.JsMap.{JsMap, get, put}
use mlx_serving.Bridge.Streams.Types.{
  StreamHandle, StreamRegistry, Outcome, resolved, rejected, completed_event, error_event,
  timeout_event, timed_out_after, RegisterResult, Signal, no_signal, live_signal, aborted_signal,
  aborted_before_registration, StreamError,
}
use mlx_serving.Bridge.Streams.Register.{
  emit, settle, effective_limit, new_handle, admit, enter, register,
}
use mlx_serving.Bridge.Streams.Chunks.{}
use mlx_serving.Bridge.Streams.Ends.{
  remove, final_stats, count_completed, complete_stream, handle_timeout,
}
use mlx_serving.Bridge.Streams.Machine.{is_cancellation, fail_stream}
use mlx_serving.Bridge.Streams.Ledger.{
  IsLedger, close-IsLedger, open-IsLedger, reject-IsLedger, update-IsLedger,
}
use mlx_serving.Bridge.Streams.Timers.{AreArmed, close-AreArmed, open-AreArmed, update-AreArmed}

-- The part of the registry that its promises and timers are in.
abbrev pub Books : Type 0 → Type 0
Books F = JsMap String (StreamHandle F) × List (ℕ × Outcome F) × ℕ × JsMap ℕ String × JsMap ℕ String

module _ {F : Type 0} where
  abbrev pub books : StreamRegistry F → Books F
  books r = (r.streams, r.settled, r.total_streams_created, r.timers, r.abort_handlers)

  -- The registry's promises are accounted for, and its timers and abort handlers are those of its
  -- streams.
  abbrev pub IsOrderly : StreamRegistry F → Type 0
  IsOrderly r =
      IsLedger r.streams r.settled r.total_streams_created
      × AreArmed r.streams r.timers r.abort_handlers r.total_streams_created

  -- What changes none of the books keeps them in order.
  pub same-IsOrderly : (r r' : StreamRegistry F) → books r' ≡ books r → IsOrderly r → IsOrderly r'
  same-IsOrderly r r' e o = subst (λ b. IsLedger b.0 b.1 b.2 × AreArmed b.0 b.3 b.4 b.2) (sym e) o

  pub remove-IsOrderly :
      (k : String) (h : StreamHandle F) (outcome : Outcome F) (r : StreamRegistry F)
      → get k r.streams ≡ some h
      → IsOrderly r
      → IsOrderly (settle h.promise outcome (remove k h r))
  unfolding settle remove
  remove-IsOrderly k h outcome r e (l, a) = (
    close-IsLedger k h outcome r.streams r.settled r.total_streams_created e l,
    close-AreArmed k h r.streams r.timers r.abort_handlers r.total_streams_created e l.distinct a,
  )

  pub update-IsOrderly :
      (k : String) (h h' : StreamHandle F) (r : StreamRegistry F)
      → get k r.streams ≡ some h
      → h'.promise ≡ h.promise
      → h'.completed ≡ h.completed
      → h'.has_signal ≡ h.has_signal
      → IsOrderly r
      → IsOrderly (record r { streams = put k h' r.streams })
  update-IsOrderly k h h' r e p c s (l, a) = (
    update-IsLedger k h h' r.streams r.settled r.total_streams_created e p c l,
    update-AreArmed k h h' r.streams r.timers r.abort_handlers r.total_streams_created e p s a,
  )

  books-count_completed :
      (h : StreamHandle F) (r : StreamRegistry F) → books (count_completed h r) ≡ books r
  unfolding count_completed
  books-count_completed h r =
      if_both (λ (x : StreamRegistry F). books x ≡ books r) r.config.metrics_enabled refl refl

  -- A stream is removed and its promise settled, by a method that does the rest as it likes.
  end-IsOrderly :
      (k : String) (outcome : StreamHandle F → Outcome F) (r : StreamRegistry F)
      (finish : StreamHandle F → StreamRegistry F)
      → ((h : StreamHandle F)
          → books (finish h) ≡ books (settle h.promise (outcome h) (remove k h r)))
      → IsOrderly r
      → IsOrderly
          (elim (get k r.streams) [ none ↦ r | some h ↦ if h.completed then r else finish h ])
  end-IsOrderly k outcome r finish same o = elim (Option-cases (get k r.streams)) [
    | inl e ↦ rw e o
    | inr (h, e) ↦ rw e (
        subst IsOrderly (sym (if_false r (finish h) (o.0.unfinished k h e))) (
          same-IsOrderly (settle h.promise (outcome h) (remove k h r)) (finish h) (same h)
            (remove-IsOrderly k h (outcome h) r e o)))
  ]

  pub complete_stream-IsOrderly :
      (r : StreamRegistry F) (k : String) (now : ℕ)
      → IsOrderly r
      → IsOrderly (complete_stream r k now)
  unfolding complete_stream emit settle
  complete_stream-IsOrderly r k now o =
      end-IsOrderly k (λ h. resolved (final_stats h now)) r
        (λ h.
          settle h.promise (resolved (final_stats h now))
            (emit (completed_event k (final_stats h now)) (count_completed h (remove k h r))))
        (λ h.
          ap
            (λ (b : Books F). (b.0, (h.promise, resolved (final_stats h now)) ∷ b.1, b.2, b.3, b.4))
            (books-count_completed h (remove k h r)))
        o

  pub handle_timeout-IsOrderly :
      (r : StreamRegistry F) (k : String) → IsOrderly r → IsOrderly (handle_timeout r k)
  unfolding handle_timeout emit settle
  handle_timeout-IsOrderly r k o =
      end-IsOrderly k (λ h. rejected (timed_out_after h.timeout)) r
        (λ h. settle h.promise (rejected (timed_out_after h.timeout)) (
          emit (error_event k (timed_out_after h.timeout)) (emit (timeout_event k) (remove k h r))))
        (λ h. refl) o

  pub fail_stream-IsOrderly :
      (mentions_cancel : String → Bool) (r : StreamRegistry F) (k : String) (error : StreamError)
      → IsOrderly r
      → IsOrderly (fail_stream mentions_cancel r k error)
  unfolding fail_stream emit settle
  fail_stream-IsOrderly mentions_cancel r k error o =
      let counts = r.config.metrics_enabled && is_cancellation mentions_cancel error in
      end-IsOrderly k (λ h. rejected error) r
        (λ h. settle h.promise (rejected error) (
          emit (error_event k error) (
            if counts
            then record (remove k h r) { total_streams_cancelled = r.total_streams_cancelled + 1 }
            else remove k h r)))
        (λ h.
          if_both
            (λ (x : StreamRegistry F).
              books (settle h.promise (rejected error) (emit (error_event k error) x))
              ≡ books (settle h.promise (rejected error) (remove k h r)))
            counts refl refl)
        o

  open-IsOrderly :
      (k : String) (h : StreamHandle F) (r : StreamRegistry F)
      → get k r.streams ≡ none
      → h.stream_id ≡ k
      → h.promise ≡ r.total_streams_created
      → h.completed ≡ false
      → IsOrderly r
      → IsOrderly (admit h (record r { total_streams_created = r.total_streams_created + 1 }))
  unfolding admit
  open-IsOrderly k h r e i p c (l, a) =
      subst
        (λ j.
          IsLedger (put j h r.streams) r.settled (r.total_streams_created + 1)
          × AreArmed (put j h r.streams) (put h.promise j r.timers)
              (if h.has_signal then put h.promise j r.abort_handlers else r.abort_handlers)
              (r.total_streams_created + 1))
        (sym i)
        (
          open-IsLedger k h r.streams r.settled r.total_streams_created e p c l,
          open-AreArmed k h r.streams r.timers r.abort_handlers r.total_streams_created e p a,
        )

  aborted-AreArmed :
      (r : StreamRegistry F)
      → AreArmed r.streams r.timers r.abort_handlers r.total_streams_created
      → AreArmed r.streams r.timers r.abort_handlers (r.total_streams_created + 1)
  aborted-AreArmed r a = record {
    timers_distinct = a.timers_distinct;
    handlers_distinct = a.handlers_distinct;
    below = λ k h e. omega (arith, a.below k h e);
    timed = a.timed;
    pending = a.pending;
    handled = a.handled;
  }

  enter-IsOrderly :
      (signal : Signal) (k : String) (h : StreamHandle F) (r : StreamRegistry F)
      → get k r.streams ≡ none
      → h.stream_id ≡ k
      → h.promise ≡ r.total_streams_created
      → h.completed ≡ false
      → IsOrderly r
      → IsOrderly
          (enter signal h (record r { total_streams_created = r.total_streams_created + 1 }))
  unfolding enter settle
  enter-IsOrderly no_signal k h r e i p c o = open-IsOrderly k h r e i p c o
  enter-IsOrderly live_signal k h r e i p c o = open-IsOrderly k h r e i p c o
  enter-IsOrderly aborted_signal k h r e i p c o =
      subst
        (λ n.
          IsLedger r.streams ((n, rejected aborted_before_registration) ∷ r.settled)
            (r.total_streams_created + 1)
          × AreArmed r.streams r.timers r.abort_handlers (r.total_streams_created + 1))
        (sym p)
        (
          reject-IsLedger (rejected aborted_before_registration) r.streams r.settled
              r.total_streams_created o.0,
          aborted-AreArmed r o.1,
        )

  pub register-IsOrderly :
      (r : StreamRegistry F) (k : String) (signal : Signal) (timeout : Option ℕ)
      (model_id : Option String) (now : ℕ)
      → IsOrderly r
      → IsOrderly (register r k signal timeout model_id now).0
  unfolding register new_handle
  register-IsOrderly r k signal timeout model_id now o = elim (Option-cases (get k r.streams)) [
    | inr (h, e) ↦ rw (e, register) o
    | inl e ↦
        rw (e, register)
          (if_both (λ (p : StreamRegistry F × RegisterResult). IsOrderly p.0)
            (leb (effective_limit r) (length r.streams)) o
            (enter-IsOrderly signal k (new_handle r k signal timeout model_id now) r e refl refl
              refl o))
  ]
