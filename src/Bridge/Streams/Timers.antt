-- ===== src/Bridge/Streams/Timers.antt =====
-- The timers and the abort handlers of the stream registry of src/bridge/stream-registry.ts.
use mlx_serving.Prelude.{
  ℕ, ◌+◌, ◌<◌, ◌≡◌, refl, sym, ap, ◌∙◌, subst, true, false, none, some, [], String, ◌==◌, ==-cases,
  ==_refl, string_eq, nat_eq, if◌then◌else◌, arith, Bool-cases, inl, inr,
}
use mlx_serving.JsMap.{
  JsMap, get, put, delete, Distinct, put-Distinct, delete-Distinct, get-put, get-put_cases,
  get-put_ne, get-delete_cases, get-put_self, get-delete, get-delete_ne,
}
use mlx_serving.Bridge.Streams.Types.{StreamHandle}

module _ {F : Type 0} where
  -- Each stream in the map has its timer, and each timer and each abort handler is that of a stream
  -- in the map, under the name that it will call back with.
  pub record AreArmed (streams : JsMap String (StreamHandle F))
      (timers abort_handlers : JsMap ℕ String) (created : ℕ) : Type 0 where
    pub timers_distinct : Distinct timers
    pub handlers_distinct : Distinct abort_handlers
    pub below : (k : String) (h : StreamHandle F) → get k streams ≡ some h → h.promise < created
    pub timed :
        (k : String) (h : StreamHandle F) → get k streams ≡ some h → get h.promise timers ≡ some k
    pub pending :
        (n : ℕ) (k : String)
        → get n timers ≡ some k
        → (h : StreamHandle F) × (get k streams ≡ some h) × (h.promise ≡ n)
    pub handled :
        (n : ℕ) (k : String)
        → get n abort_handlers ≡ some k
        → (h : StreamHandle F) × (get k streams ≡ some h) × (h.promise ≡ n) × (h.has_signal ≡ true)

  pub empty-AreArmed : AreArmed [] [] [] 0
  unfolding get
  empty-AreArmed = record {
    timers_distinct = tt;
    handlers_distinct = tt;
    below = λ k h e. cc;
    timed = λ k h e. cc;
    pending = λ n k e. absurd (cc);
    handled = λ n k e. absurd (cc);
  }

  -- Two streams with the same promise are the same.
  pub promise-injective :
      {m : JsMap String (StreamHandle F)} {t a : JsMap ℕ String} {c : ℕ} (j k : String)
      (x h : StreamHandle F)
      → AreArmed m t a c
      → get j m ≡ some x
      → get k m ≡ some h
      → x.promise ≡ h.promise
      → j ≡ k
  promise-injective j k x h r p q e = ground (arith, r.timed j x p, r.timed k h q)

  -- A stream that is not the one removed is still there.
  close_get :
      (k j : String) (h x : StreamHandle F) (m : JsMap String (StreamHandle F)) (n : ℕ)
      → get k m ≡ some h
      → get j m ≡ some x
      → x.promise ≡ n
      → (h.promise == n) ≡ false
      → get j (delete k m) ≡ some x
  close_get k j h x m n e gx o ne = elim (==-cases k j) [
    | inl i ↦ let same = ap (λ i. get i m) i.1 in absurd (ground (arith, ==_refl n))
    | inr i ↦ get-delete_ne j k m i.0 ∙ gx
  ]

  pub close-AreArmed :
      (k : String) (h : StreamHandle F) (m : JsMap String (StreamHandle F)) (t a : JsMap ℕ String)
      (c : ℕ)
      → get k m ≡ some h
      → Distinct m
      → AreArmed m t a c
      → AreArmed
          (delete k m)
          (delete h.promise t)
          (if h.has_signal then delete h.promise a else a)
          c
  close-AreArmed k h m t a c e d r = record {
    timers_distinct = delete-Distinct h.promise t r.timers_distinct;
    handlers_distinct = elim (Bool-cases h.has_signal) [
      | inl s ↦ rw s (delete-Distinct h.promise a r.handlers_distinct)
      | inr s ↦ rw s (r.handlers_distinct)
    ];
    below = λ j x q. r.below j x (ground (arith, get-delete j k m d));
    timed = λ j x q.
        let (ne, g) = get-delete_cases j k m d q in
        elim (==-cases h.promise x.promise) [
          | inl i ↦
              let same = promise-injective k j h x r e g i.1 in absurd (ground (arith, ==_refl k))
          | inr i ↦ get-delete_ne x.promise h.promise t i.0 ∙ r.timed j x g
        ];
    pending = λ n j q.
        let (ne, g) = get-delete_cases n h.promise t r.timers_distinct q in
        let (x, gx, o) = r.pending n j g in (x, close_get k j h x m n e gx o ne, o);
    handled = λ n j q. elim (Bool-cases h.has_signal) [
      | inl s ↦
          let (ne, g) =
            get-delete_cases n h.promise a r.handlers_distinct
              (subst (λ b. get n (if b then delete h.promise a else a) ≡ some j) s q) in
          let (x, gx, o, live) = r.handled n j g in (x, close_get k j h x m n e gx o ne, o, live)
      | inr s ↦
          let (x, gx, o, live) =
            r.handled n j (subst (λ b. get n (if b then delete h.promise a else a) ≡ some j) s q) in
          elim (==-cases k j) [
            | inl i ↦ let same = ap (λ i. get i m) i.1 in absurd (ground arith)
            | inr i ↦ (x, get-delete_ne j k m i.0 ∙ gx, o, live)
          ]
    ];
  }

  open_get :
      (k j : String) (h x : StreamHandle F) (m : JsMap String (StreamHandle F))
      → get k m ≡ none
      → get j m ≡ some x
      → get j (put k h m) ≡ some x
  open_get k j h x m e gx = elim (==-cases k j) [
    | inl i ↦ let same = ap (λ i. get i m) i.1 in absurd (ground arith)
    | inr i ↦ get-put_ne j k h m i.0 ∙ gx
  ]

  pub open-AreArmed :
      (k : String) (h : StreamHandle F) (m : JsMap String (StreamHandle F)) (t a : JsMap ℕ String)
      (c : ℕ)
      → get k m ≡ none
      → h.promise ≡ c
      → AreArmed m t a c
      → AreArmed
          (put k h m)
          (put h.promise k t)
          (if h.has_signal then put h.promise k a else a)
          (c + 1)
  open-AreArmed k h m t a c e p r = record {
    timers_distinct = put-Distinct h.promise k t r.timers_distinct;
    handlers_distinct = elim (Bool-cases h.has_signal) [
      | inl s ↦ rw s (put-Distinct h.promise k a r.handlers_distinct)
      | inr s ↦ rw s (r.handlers_distinct)
    ];
    below = λ j x q. ground (arith, get-put j k h m, r.below j x);
    timed = λ j x q. elim (get-put_cases j k h m q) [
      | inl (i, same) ↦
          subst (λ i. get x.promise (put h.promise k t) ≡ some i) i
            (subst (λ (y : StreamHandle F). get y.promise (put h.promise k t) ≡ some k) same
              (get-put_self h.promise k t))
      | inr (ne, g) ↦
          let low = r.below j x g in
          get-put_ne x.promise h.promise k t (ground arith) ∙ r.timed j x g
    ];
    pending = λ n j q. elim (get-put_cases n h.promise k t q) [
      | inl (i, same) ↦ (h, subst (λ i. get i (put k h m) ≡ some h) same (get-put_self k h m), i)
      | inr (ne, g) ↦ let (x, gx, o) = r.pending n j g in (x, open_get k j h x m e gx, o)
    ];
    handled = λ n j q. elim (Bool-cases h.has_signal) [
      | inl s ↦
          elim (get-put_cases n h.promise k a
            (subst (λ b. get n (if b then put h.promise k a else a) ≡ some j) s q)) [
              | inl (i, same) ↦
                  (h, subst (λ i. get i (put k h m) ≡ some h) same (get-put_self k h m), i, s)
              | inr (ne, g) ↦
                  let (x, gx, o, live) = r.handled n j g in (x, open_get k j h x m e gx, o, live)
            ]
      | inr s ↦
          let (x, gx, o, live) =
            r.handled n j (subst (λ b. get n (if b then put h.promise k a else a) ≡ some j) s q) in
          (x, open_get k j h x m e gx, o, live)
    ];
  }

  -- The stream under a name, after one stream's handle was written.
  update_get :
      (k j : String) (h h' x : StreamHandle F) (m : JsMap String (StreamHandle F))
      → get k m ≡ some h
      → h'.promise ≡ h.promise
      → h'.has_signal ≡ h.has_signal
      → get j m ≡ some x
      → (y : StreamHandle F) × (get j (put k h' m) ≡ some y)
        × (y.promise ≡ x.promise)
        × (y.has_signal ≡ x.has_signal)
  update_get k j h h' x m e p s g = elim (==-cases k j) [
    | inl i ↦
        let same = ap (λ i. get i m) i.1 in
        (
          h',
          subst (λ i. get i (put k h' m) ≡ some h') i.1 (get-put_self k h' m),
          ground arith,
          ground arith,
        )
    | inr i ↦ (x, get-put_ne j k h' m i.0 ∙ g, refl, refl)
  ]

  pub update-AreArmed :
      (k : String) (h h' : StreamHandle F) (m : JsMap String (StreamHandle F))
      (t a : JsMap ℕ String) (c : ℕ)
      → get k m ≡ some h
      → h'.promise ≡ h.promise
      → h'.has_signal ≡ h.has_signal
      → AreArmed m t a c
      → AreArmed (put k h' m) t a c
  update-AreArmed k h h' m t a c e p s r = record {
    timers_distinct = r.timers_distinct;
    handlers_distinct = r.handlers_distinct;
    below = λ j x q. ground (arith, get-put j k h' m, r.below j x, r.below k h e);
    timed = λ j x q. elim (get-put_cases j k h' m q) [
      | inl (i, same) ↦
          let old = r.timed k h e in
          subst (λ i. get x.promise t ≡ some i) i
            (ap (λ n. get n t) (sym (ap (λ (y : StreamHandle F). y.promise) same) ∙ p) ∙ old)
      | inr (ne, g) ↦ r.timed j x g
    ];
    pending = λ n j q.
        let (x, g, o) = r.pending n j q in
        let (y, gy, py, sy) = update_get k j h h' x m e p s g in (y, gy, py ∙ o);
    handled = λ n j q.
        let (x, g, o, live) = r.handled n j q in
        let (y, gy, py, sy) = update_get k j h h' x m e p s g in (y, gy, py ∙ o, sy ∙ live);
  }
