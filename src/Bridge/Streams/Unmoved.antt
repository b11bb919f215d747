-- ===== src/Bridge/Streams/Unmoved.antt =====
-- The promises and timers of src/bridge/stream-registry.ts, through chunks, acknowledgements and
-- statistics.
use mlx_serving.Prelude.{
  ℕ, ◌+◌, ◌≡◌, refl, ap, ◌∙◌, ◌&&◌, not, some, List, [], ◌∷◌, String, string_eq, nat_eq, if_both,
  ltb, leb, eqb, Option-cases, inl, inr,
}
use mlx_serving.JsMap.{get, put}
use mlx_serving.Bridge.ChunkPool.{NormalizedTokenPayload}
use mlx_serving.Bridge.Streams.Types.{StreamHandle, StreamRegistry, StreamStats}
use mlx_serving.Bridge.Streams.Register.{emit, truthy}
use mlx_serving.Bridge.Streams.Chunks.{
  mark_first, block, blocked_ms, press, emit_chunk_payload, take_payloads, handle_chunk,
  handle_stats, acknowledge_chunk,
}
use mlx_serving.Bridge.Streams.Ends.{}
use mlx_serving.Bridge.Streams.Ledger.{}
use mlx_serving.Bridge.Streams.Orderly.{Books, books, IsOrderly, same-IsOrderly, update-IsOrderly}

module _ {F : Type 0} where
  -- A chunk changes nothing of the books, and of the handle only what is measured.
  abbrev Unmoved : StreamRegistry F → StreamHandle F → StreamRegistry F × StreamHandle F → Type 0
  Unmoved r h p =
      (books p.0 ≡ books r)
      × (p.1.promise ≡ h.promise)
      × (p.1.completed ≡ h.completed)
      × (p.1.has_signal ≡ h.has_signal)

  mark_first-Unmoved :
      (now : ℕ) (h : StreamHandle F) (r : StreamRegistry F) → Unmoved r h (mark_first now h r)
  unfolding mark_first
  mark_first-Unmoved now h r =
      if_both (Unmoved r h) (eqb h.chunk_count 1 && not (truthy h.first_token_at))
        (
          if_both (λ (x : StreamRegistry F). books x ≡ books r) r.config.metrics_enabled refl refl,
          refl,
          refl,
          refl,
        )
        (refl, refl, refl, refl)

  press-Unmoved :
      (now : ℕ) (h : StreamHandle F) (r : StreamRegistry F) → Unmoved r h (press now h r)
  unfolding press block emit
  press-Unmoved now h r =
      let h' = record h { unacked_chunks = h.unacked_chunks + 1 } in
      let kept : (x : StreamHandle F) → Type 0 = λ x.
        (x.promise ≡ h.promise) × (x.completed ≡ h.completed) × (x.has_signal ≡ h.has_signal) in
      let blocked : kept (block now h') =
        if_both kept (truthy h.blocked_since) (refl, refl, refl) (refl, refl, refl) in
      if_both (Unmoved r h) r.config.backpressure_enabled
        (if_both (Unmoved r h) (leb r.config.max_unacked_chunks h'.unacked_chunks)
          (
            if_both (λ (x : StreamRegistry F). books x ≡ books r)
                (ltb r.config.slow_consumer_threshold_ms (blocked_ms now (block now h'))) refl refl,
            blocked.0,
            blocked.1,
            blocked.2,
          )
          (refl, refl, refl, refl))
        (refl, refl, refl, refl)

  books-emit_chunk_payload :
      (k : String) (payload : NormalizedTokenPayload F) (r : StreamRegistry F)
      → books (emit_chunk_payload k payload r) ≡ books r
  unfolding emit_chunk_payload emit
  books-emit_chunk_payload k payload r =
      if_both (λ (x : StreamRegistry F). books x ≡ books r) r.config.chunk_pooling_enabled refl refl

  take_payloads-Unmoved :
      (payloads : List (NormalizedTokenPayload F)) (now : ℕ) (h : StreamHandle F)
      (r : StreamRegistry F)
      → Unmoved r h (take_payloads payloads now h r)
  unfolding take_payloads
  take_payloads-Unmoved [] now h r = (refl, refl, refl, refl)
  take_payloads-Unmoved (payload ∷ payloads) now h r =
      let h0 = record h { chunk_count = h.chunk_count + 1 } in
      let marked = mark_first now h0 r in
      let h1 = record (marked.1) { last_chunk_at = some now } in
      let pressed = press now h1 marked.0 in
      let sent = emit_chunk_payload h.stream_id payload pressed.0 in
      let m = mark_first-Unmoved now h0 r in
      let p = press-Unmoved now h1 marked.0 in
      let s = books-emit_chunk_payload h.stream_id payload pressed.0 in
      let t = take_payloads-Unmoved payloads now pressed.1 sent in
      (t.0 ∙ s ∙ p.0 ∙ m.0, t.1 ∙ p.1 ∙ m.1, t.2 ∙ p.2 ∙ m.2, t.3 ∙ p.3 ∙ m.3)

  pub handle_chunk-IsOrderly :
      (r : StreamRegistry F) (k : String) (payloads : List (NormalizedTokenPayload F)) (now : ℕ)
      → IsOrderly r
      → IsOrderly (handle_chunk r k payloads now)
  unfolding handle_chunk
  handle_chunk-IsOrderly r k payloads now o = elim (Option-cases (get k r.streams)) [
    | inl e ↦ rw (e, handle_chunk) o
    | inr (h, e) ↦
        let taken = take_payloads payloads now h r in
        let u = take_payloads-Unmoved payloads now h r in
        rw (e, handle_chunk)
          (if_both IsOrderly h.completed o (
            same-IsOrderly (record r { streams = put k taken.1 r.streams })
              (record (taken.0) { streams = put k taken.1 taken.0.streams })
              (ap (λ (b : Books F). (put k taken.1 b.0, b.1, b.2, b.3, b.4)) u.0)
              (update-IsOrderly k h taken.1 r e u.1 u.2 u.3 o)))
  ]

  pub acknowledge_chunk-IsOrderly :
      (r : StreamRegistry F) (k : String) (count : ℕ)
      → IsOrderly r
      → IsOrderly (acknowledge_chunk r k count)
  unfolding acknowledge_chunk
  acknowledge_chunk-IsOrderly r k count o = elim (Option-cases (get k r.streams)) [
    | inl e ↦ rw (e, acknowledge_chunk) o
    | inr (h, e) ↦
        rw (e, acknowledge_chunk)
          (if_both IsOrderly r.config.backpressure_enabled
            (if_both IsOrderly h.completed o (update-IsOrderly k h _ r e refl refl refl o)) o)
  ]

  pub handle_stats-IsOrderly :
      (r : StreamRegistry F) (k : String) (stats : StreamStats F)
      → IsOrderly r
      → IsOrderly (handle_stats r k stats)
  unfolding handle_stats emit
  handle_stats-IsOrderly r k stats o = elim (Option-cases (get k r.streams)) [
    | inl e ↦ rw (e, handle_stats) o
    | inr (h, e) ↦
        rw (e, handle_stats)
          (update-IsOrderly k h (record h { stats = some stats }) r e refl refl refl o)
  ]
