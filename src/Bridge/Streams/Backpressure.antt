-- ===== src/Bridge/Streams/Backpressure.antt =====
-- Backpressure in the stream registry of src/bridge/stream-registry.ts.
use mlx_serving.Prelude.{
  ℕ, zero, suc, ◌+◌, ◌-◌, ◌<◌, ◌≡◌, refl, sym, ap, ◌∙◌, subst, Bool, true, false, ◌&&◌, not, Option,
  none, some, List, [], ◌∷◌, String, string_eq, nat_eq, if◌then◌else◌, if_true, if_false, if_both,
  ltb, leb, eqb, length, arith, Bool-cases, inl, inr,
}
use mlx_serving.JsMap.{get, put, get-put_self}
use mlx_serving.Bridge.ChunkPool.{NormalizedTokenPayload}
use mlx_serving.Bridge.Streams.Types.{StreamConfig, StreamHandle, StreamRegistry}
use mlx_serving.Bridge.Streams.Register.{emit, truthy}
use mlx_serving.Bridge.Streams.Chunks.{
  mark_first, block, press, emit_chunk_payload, take_payloads, handle_chunk, acknowledge_chunk,
}

truthy_now : (now : ℕ) → 0 < now → truthy (some now) ≡ true
unfolding truthy
truthy_now zero l = absurd (omega (arith, l))
truthy_now (suc n) l = refl

truthy_freed : (b : Bool) (t : Option ℕ) → truthy (if b then none else t) ≡ not b && truthy t
unfolding truthy
truthy_freed true t = refl
truthy_freed false t = refl

-- The time since which a handle is blocked, from the one before and whether it is at the limit now: a
-- mark that is there stays.
abbrev pub since : ℕ → Option ℕ → Bool → Option ℕ
since now t full = if truthy t then t else if full then some now else t

since-since :
    (now : ℕ) (t : Option ℕ) (full full' : Bool)
    → 0 < now
    → (full ≡ true → full' ≡ true)
    → since now (since now t full) full' ≡ since now t full'
since-since now t full full' l m = elim (Bool-cases (truthy t)) [
  | inl b ↦ ground arith
  | inr b ↦ elim (Bool-cases full) [
    | inl f ↦ ground (arith, truthy_now now l, m f)
    | inr f ↦ ground arith
  ]
]

module _ {F : Type 0} where
  -- A handle says since when it is blocked just if it has as many chunks as may be unacknowledged.
  abbrev pub IsGauged : ℕ → StreamHandle F → Type 0
  IsGauged most h = truthy h.blocked_since ≡ leb most h.unacked_chunks

  -- The handle after so many chunks more, at the time `now`.
  pub record Pressed (most now n : ℕ) (h h' : StreamHandle F) : Type 0 where
    pub chunks_counted : h'.chunk_count ≡ h.chunk_count + n
    pub unacked_counted : h'.unacked_chunks ≡ h.unacked_chunks + n
    pub gauged : IsGauged most h'
    pub marked : h'.blocked_since ≡ since now h.blocked_since (leb most h'.unacked_chunks)

  config-mark_first :
      (now : ℕ) (h : StreamHandle F) (r : StreamRegistry F)
      → (mark_first now h r).0.config ≡ r.config
  unfolding mark_first
  config-mark_first now h r = ground arith

  config-press :
      (now : ℕ) (h : StreamHandle F) (r : StreamRegistry F) → (press now h r).0.config ≡ r.config
  unfolding press emit
  config-press now h r = ground arith

  config-emit_chunk_payload :
      (k : String) (payload : NormalizedTokenPayload F) (r : StreamRegistry F)
      → (emit_chunk_payload k payload r).config ≡ r.config
  unfolding emit_chunk_payload emit
  config-emit_chunk_payload k payload r = ground arith

  mark_first_lem :
      (now : ℕ) (h : StreamHandle F) (r : StreamRegistry F)
      → ((mark_first now h r).1.chunk_count ≡ h.chunk_count)
        × ((mark_first now h r).1.unacked_chunks ≡ h.unacked_chunks)
        × ((mark_first now h r).1.blocked_since ≡ h.blocked_since)
  unfolding mark_first
  mark_first_lem now h r =
      if_both
        (λ (p : StreamRegistry F × StreamHandle F).
          (p.1.chunk_count ≡ h.chunk_count)
          × (p.1.unacked_chunks ≡ h.unacked_chunks)
          × (p.1.blocked_since ≡ h.blocked_since))
        (eqb h.chunk_count 1 && not (truthy h.first_token_at)) (refl, refl, refl) (refl, refl, refl)

  block-IsGauged :
      (now most : ℕ) (h : StreamHandle F)
      → 0 < now
      → leb most h.unacked_chunks ≡ true
      → (IsGauged most (block now h))
        × ((block now h).unacked_chunks ≡ h.unacked_chunks)
        × ((block now h).chunk_count ≡ h.chunk_count)
        × ((block now h).blocked_since ≡ since now h.blocked_since true)
  unfolding block
  block-IsGauged now most h l full = elim (Bool-cases (truthy h.blocked_since)) [
    | inl b ↦
        subst
          (λ (x : StreamHandle F).
            IsGauged most x
            × (x.unacked_chunks ≡ h.unacked_chunks)
            × (x.chunk_count ≡ h.chunk_count)
            × (x.blocked_since ≡ since now h.blocked_since true))
          (sym (if_true h (record h { blocked_since = some now }) b))
          (b ∙ sym full, refl, refl, sym (if_true _ _ b))
    | inr b ↦
        subst
          (λ (x : StreamHandle F).
            IsGauged most x
            × (x.unacked_chunks ≡ h.unacked_chunks)
            × (x.chunk_count ≡ h.chunk_count)
            × (x.blocked_since ≡ since now h.blocked_since true))
          (sym (if_false h (record h { blocked_since = some now }) b))
          (truthy_now now l ∙ sym full, refl, refl, sym (if_false _ _ b))
  ]

  press-IsGauged :
      (now : ℕ) (h : StreamHandle F) (r : StreamRegistry F)
      → r.config.backpressure_enabled ≡ true
      → 0 < now
      → IsGauged r.config.max_unacked_chunks h
      → IsGauged r.config.max_unacked_chunks (press now h r).1
        × ((press now h r).1.unacked_chunks ≡ h.unacked_chunks + 1)
        × ((press now h r).1.chunk_count ≡ h.chunk_count)
        × ((press now h r).1.blocked_since
            ≡ since now h.blocked_since (leb r.config.max_unacked_chunks (h.unacked_chunks + 1)))
  unfolding press
  press-IsGauged now h r on l g =
      let h' = record h { unacked_chunks = h.unacked_chunks + 1 } in
      let goal : StreamRegistry F × StreamHandle F → Type 0 = λ p.
        IsGauged r.config.max_unacked_chunks p.1
        × (p.1.unacked_chunks ≡ h.unacked_chunks + 1)
        × (p.1.chunk_count ≡ h.chunk_count)
        × (p.1.blocked_since
            ≡ since now h.blocked_since (leb r.config.max_unacked_chunks (h.unacked_chunks + 1))) in
      elim (Bool-cases (leb r.config.max_unacked_chunks (h.unacked_chunks + 1))) [
        | inl full ↦ subst goal (sym (if_true _ _ on ∙ if_true _ _ full)) (
            let (a, b, c, d) = block-IsGauged now r.config.max_unacked_chunks h' l full in
            (a, b, c, d ∙ ap (since now h.blocked_since) (sym full)))
        | inr free ↦
            subst goal (sym (if_true _ _ on ∙ if_false _ (r, h') free))
              (ground (arith, g), refl, refl, ground (arith, free))
      ]

  -- The handle is gauged again after each chunk.
  take_payloads-Pressed :
      (payloads : List (NormalizedTokenPayload F)) (now : ℕ) (h : StreamHandle F)
      (r : StreamRegistry F) (config : StreamConfig)
      → r.config ≡ config
      → config.backpressure_enabled ≡ true
      → 0 < now
      → IsGauged config.max_unacked_chunks h
      → Pressed config.max_unacked_chunks now (length payloads) h (take_payloads payloads now h r).1
  unfolding take_payloads
  take_payloads-Pressed [] now h r config c on l g = record {
    chunks_counted = omega arith;
    unacked_counted = omega arith;
    gauged = g;
    marked = ground (arith, g);
  }
  take_payloads-Pressed (payload ∷ payloads) now h r config c on l g =
      let h0 = record h { chunk_count = h.chunk_count + 1 } in
      let marked = mark_first now h0 r in
      let h1 = record (marked.1) { last_chunk_at = some now } in
      let pressed = press now h1 marked.0 in
      let sent = emit_chunk_payload h.stream_id payload pressed.0 in
      let m = mark_first_lem now h0 r in
      let c1 = config-mark_first now h0 r ∙ c in
      let p =
        press-IsGauged now h1 marked.0 (ap (λ (i : StreamConfig). i.backpressure_enabled) c1 ∙ on) l
          (ap truthy m.2
            ∙ g
            ∙ ap (λ n. leb n h.unacked_chunks)
                (sym (ap (λ (i : StreamConfig). i.max_unacked_chunks) c1))
            ∙ ap (leb marked.0.config.max_unacked_chunks) (sym m.1)) in
      let c2 =
        config-emit_chunk_payload h.stream_id payload pressed.0
        ∙ config-press now h1 marked.0
        ∙ c1 in
      let t =
        take_payloads-Pressed payloads now pressed.1 sent config c2 on l
          (p.0 ∙ ap (λ (i : StreamConfig). leb i.max_unacked_chunks pressed.1.unacked_chunks) c1) in
      let full = leb marked.0.config.max_unacked_chunks (h1.unacked_chunks + 1) in
      let full' =
        leb config.max_unacked_chunks
          (take_payloads payloads now pressed.1 sent).1.unacked_chunks in
      let most : marked.0.config.max_unacked_chunks ≡ config.max_unacked_chunks =
        ap (λ (i : StreamConfig). i.max_unacked_chunks) c1 in
      record {
        chunks_counted = omega (arith, t.chunks_counted, p.2, m.0);
        unacked_counted = omega (arith, t.unacked_counted, p.1, m.1);
        gauged = t.gauged;
        marked =
            t.marked
            ∙ ap (λ x. since now x full') (p.3 ∙ ap (λ x. since now x full) m.2)
            ∙ since-since now h.blocked_since full full' l
                (λ f. ground (arith, f, most, t.unacked_counted, p.1));
      }

  -- With backpressure on, a chunk of so many tokens for a stream that is not completed raises the
  -- stream's count of chunks and its count of unacknowledged chunks by as many; and if the handle
  -- said since when it is blocked just if the limit of unacknowledged chunks was reached, it does
  -- so again. A handle that was blocked keeps the time since when; one that was not is
  -- blocked since this chunk if it is at the limit after it, and not otherwise.
  pub handle_chunk-Pressed :
      (r : StreamRegistry F) (k : String) (h : StreamHandle F)
      (payloads : List (NormalizedTokenPayload F)) (now : ℕ)
      → get k r.streams ≡ some h
      → h.completed ≡ false
      → r.config.backpressure_enabled ≡ true
      → 0 < now
      → IsGauged r.config.max_unacked_chunks h
      → (h' : StreamHandle F) × (get k (handle_chunk r k payloads now).streams ≡ some h')
        × Pressed r.config.max_unacked_chunks now (length payloads) h h'
  unfolding handle_chunk
  handle_chunk-Pressed r k h payloads now e c on l g =
      let taken = take_payloads payloads now h r in
      let result : StreamRegistry F = record (taken.0) {
        streams = put k taken.1 taken.0.streams;
      } in
      let run : handle_chunk r k payloads now ≡ result =
        rw (e, handle_chunk) (if_false r result c) in
      (
        taken.1,
        ap (λ (x : StreamRegistry F). get k x.streams) run ∙ get-put_self k taken.1 taken.0.streams,
        take_payloads-Pressed payloads now h r r.config refl on l g,
      )

  -- With backpressure on, acknowledging chunks of a stream that is not
  -- completed takes them off its unacknowledged chunks, down to 0 at the least; and if the handle
  -- said since when it is blocked just if the limit was reached, it does so again: the stream is
  -- free as soon as it is below the limit.
  pub acknowledge_chunk-IsGauged :
      (r : StreamRegistry F) (k : String) (h : StreamHandle F) (count : ℕ)
      → get k r.streams ≡ some h
      → h.completed ≡ false
      → r.config.backpressure_enabled ≡ true
      → IsGauged r.config.max_unacked_chunks h
      → (h' : StreamHandle F) × (get k (acknowledge_chunk r k count).streams ≡ some h')
        × (h'.unacked_chunks ≡ h.unacked_chunks - count)
        × IsGauged r.config.max_unacked_chunks h'
  unfolding acknowledge_chunk
  acknowledge_chunk-IsGauged r k h count e c on g =
      let left = h.unacked_chunks - count in
      let unblocked = ltb left r.config.max_unacked_chunks && truthy h.blocked_since in
      let h' : StreamHandle F = record h {
        unacked_chunks = left;
        blocked_since = if unblocked then none else h.blocked_since;
      } in
      let result : StreamRegistry F = record r { streams = put k h' r.streams } in
      let run : acknowledge_chunk r k count ≡ result =
        rw (e, acknowledge_chunk) (if_true _ r on ∙ if_false r result c) in
      let freed : truthy (if unblocked then none else h.blocked_since)
          ≡ not unblocked && truthy h.blocked_since =
        truthy_freed unblocked h.blocked_since in
      let free : IsGauged r.config.max_unacked_chunks h' = ground (arith, freed, g) in
      (
        h',
        ap (λ (x : StreamRegistry F). get k x.streams) run ∙ get-put_self k h' r.streams,
        refl,
        free,
      )
