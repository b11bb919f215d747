-- ===== src/Bridge/Streams/Ledger.antt =====
-- The promises of the stream registry of src/bridge/stream-registry.ts.
use mlx_serving.Prelude.{
  ℕ, ◌+◌, ◌<◌, ◌≡◌, ap, ◌∙◌, false, none, some, List, [], ◌∷◌, String, string_eq, nat_eq,
  if◌then◌else◌, ltb, eqb, arith, All,
}
use mlx_serving.JsMap.{
  JsMap, get, put, delete, Distinct, put-Distinct, delete-Distinct, get-put, get-delete, total,
  total-delete, total-append, total-put_same, put_absent, AreIn,
}
use mlx_serving.Bridge.Streams.Types.{StreamHandle, StreamRegistry, Outcome, rejected, shutdown}
use mlx_serving.Bridge.Streams.Register.{settle}
use mlx_serving.Bridge.Streams.Ends.{shut_all}

module _ {F : Type 0} where
  -- 1 for a handle of the promise, and 0 for any other.
  abbrev pub is_for : ℕ → StreamHandle F → ℕ
  is_for n h = if eqb h.promise n then 1 else 0

  -- How often a promise was settled.
  abbrev pub settlements : ℕ → List (ℕ × Outcome F) → ℕ
  settlements n [] = 0
  settlements n ((m, outcome) ∷ settled) = (if eqb m n then 1 else 0) + settlements n settled

  -- Each promise that was made is either that of one stream in the map or was settled once.
  pub record IsLedger (streams : JsMap String (StreamHandle F)) (settled : List (ℕ × Outcome F))
      (created : ℕ) : Type 0 where
    pub distinct : Distinct streams
    pub unfinished :
        (k : String) (h : StreamHandle F) → get k streams ≡ some h → h.completed ≡ false
    pub fresh : (k : String) (h : StreamHandle F) → get k streams ≡ some h → h.promise < created
    pub once :
        (n : ℕ)
        → total (is_for n) streams + settlements n settled ≡ (if ltb n created then 1 else 0)

  pub empty-IsLedger : IsLedger [] [] 0
  unfolding get
  empty-IsLedger = record {
    distinct = tt;
    unfinished = λ k h e. cc;
    fresh = λ k h e. cc;
    once = λ n. ground arith;
  }

  pub close-IsLedger :
      (k : String) (h : StreamHandle F) (outcome : Outcome F) (m : JsMap String (StreamHandle F))
      (settled : List (ℕ × Outcome F)) (created : ℕ)
      → get k m ≡ some h
      → IsLedger m settled created
      → IsLedger (delete k m) ((h.promise, outcome) ∷ settled) created
  close-IsLedger k h outcome m settled created e l = record {
    distinct = delete-Distinct k m l.distinct;
    unfinished = λ j x q. l.unfinished j x (ground (arith, get-delete j k m l.distinct));
    fresh = λ j x q. l.fresh j x (ground (arith, get-delete j k m l.distinct));
    once = λ n. omega (arith, l.once n, total-delete (is_for n) k m e);
  }

  pub open-IsLedger :
      (k : String) (h : StreamHandle F) (m : JsMap String (StreamHandle F))
      (settled : List (ℕ × Outcome F)) (created : ℕ)
      → get k m ≡ none
      → h.promise ≡ created
      → h.completed ≡ false
      → IsLedger m settled created
      → IsLedger (put k h m) settled (created + 1)
  open-IsLedger k h m settled created e p c l = record {
    distinct = put-Distinct k h m l.distinct;
    unfinished = λ j x q. ground (arith, get-put j k h m, l.unfinished j x);
    fresh = λ j x q. ground (arith, get-put j k h m, l.fresh j x);
    once = λ n.
        let same =
          ap (total (is_for n)) (put_absent k h m e) ∙ total-append (is_for n) m ((k, h) ∷ []) in
        ground (arith, l.once n, same);
  }

  pub reject-IsLedger :
      (outcome : Outcome F) (m : JsMap String (StreamHandle F)) (settled : List (ℕ × Outcome F))
      (created : ℕ)
      → IsLedger m settled created
      → IsLedger m ((created, outcome) ∷ settled) (created + 1)
  reject-IsLedger outcome m settled created l = record {
    distinct = l.distinct;
    unfinished = l.unfinished;
    fresh = λ j x q. omega (arith, l.fresh j x q);
    once = λ n. ground (arith, l.once n);
  }

  pub update-IsLedger :
      (k : String) (h h' : StreamHandle F) (m : JsMap String (StreamHandle F))
      (settled : List (ℕ × Outcome F)) (created : ℕ)
      → get k m ≡ some h
      → h'.promise ≡ h.promise
      → h'.completed ≡ h.completed
      → IsLedger m settled created
      → IsLedger (put k h' m) settled created
  update-IsLedger k h h' m settled created e p c l = record {
    distinct = put-Distinct k h' m l.distinct;
    unfinished = λ j x q. ground (arith, get-put j k h' m, l.unfinished j x, l.unfinished k h e);
    fresh = λ j x q. ground (arith, get-put j k h' m, l.fresh j x, l.fresh k h e);
    once = λ n.
        let t = total-put_same (is_for n) k h h' m e (ap (λ i. if eqb i n then 1 else 0) p) in
        omega (arith, l.once n, t);
  }

  pub settlements-shut_all :
      (n : ℕ) (handles : JsMap String (StreamHandle F)) (r : StreamRegistry F)
      → All (λ p. p.1.completed ≡ false) handles
      → settlements n (shut_all handles r).settled
        ≡ total (is_for n) handles + settlements n r.settled
  unfolding shut_all settle
  settlements-shut_all n [] r u = omega arith
  settlements-shut_all n ((k, h) ∷ handles) r u =
      let r' = record r {
        timers = delete h.promise r.timers;
        abort_handlers =
            if h.has_signal then delete h.promise r.abort_handlers else r.abort_handlers;
      } in
      rw u.0 (
        omega (arith, settlements-shut_all n handles (settle h.promise (rejected shutdown) r') u.1))

  pub unfinished-All :
      (entries m : JsMap String (StreamHandle F))
      → AreIn entries m
      → ((k : String) (h : StreamHandle F) → get k m ≡ some h → h.completed ≡ false)
      → All (λ p. p.1.completed ≡ false) entries
  unfinished-All [] m a u = tt
  unfinished-All ((k, h) ∷ entries) m a u = (u k h a.0, unfinished-All entries m a.1 u)
