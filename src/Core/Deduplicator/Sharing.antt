-- ===== src/Core/Deduplicator/Sharing.antt =====
-- Requests of src/core/request-deduplicator.ts that share a promise, through runs of calls.
use mlx_serving.Prelude.{
  ℕ, refl, leb, ◌+◌, ◌≤◌, ◌<◌, ◌≡◌, sym, ap, ◌∙◌, subst, true, false, not, Option, none, some, List,
  [], ◌∷◌, String, ◌==◌, ==-cases, string_eq, if_true, if_false, length, length-filter_b-le, All,
  arith, Bool-cases, Option-cases, inl, inr,
}
use mlx_serving.JsMap.{
  get, put, delete, get-put_self, get-put_ne, get-delete_ne, get-sweep, sweep_lem, sweep-Distinct,
  Distinct, put-Distinct, delete-Distinct,
}
use mlx_serving.Core.Deduplicator.{
  CacheEntry, RequestDeduplicator, is_expired, lookup, store, evict_oldest, reject, cleanup_expired,
  Call, gets, rejects, sets, cleans, clears, step, run,
}
use mlx_serving.Core.Deduplicator.Bounded.{length-delete_le, length-put_le}

lookup_fresh :
    (d : RequestDeduplicator) (k : String) (now : ℕ) (x : CacheEntry)
    → d.config.enabled ≡ true
    → get k d.cache ≡ some x
    → now < x.expires_at
    → (lookup d k now).1 ≡ some x.promise
unfolding lookup
lookup_fresh d k now x n h l =
    let fresh : is_expired now x ≡ false = ground (arith, l) in rw (n, h, lookup) (rw fresh refl)

-- `set` where nothing has to be evicted.
store_roomy :
    (d : RequestDeduplicator) (k : String) (p now : ℕ)
    → d.config.enabled ≡ true
    → length d.cache < d.config.max_entries
    → store d k p now ≡ (record d {
      cache =
          put k
            (record {
              promise = p;
              expires_at = now + d.config.ttl_ms;
              fingerprint = k;
              created_at = now;
            })
            d.cache;
    })
unfolding store
store_roomy d k p now on l =
    let full : leb d.config.max_entries (length d.cache) ≡ false = ground (arith, l) in
    if_true _ d on
    ∙ ap
        (λ (e : RequestDeduplicator). record e {
          cache =
              put k
                (record {
                  promise = p;
                  expires_at = now + d.config.ttl_ms;
                  fingerprint = k;
                  created_at = now;
                })
                e.cache;
        })
        (if_false (evict_oldest d) d full)

abbrev one_set : Call → ℕ
one_set (sets k p) = 1
one_set (gets k) = 0
one_set (rejects k) = 0
one_set cleans = 0
one_set clears = 0

-- How many promises are set among the calls.
abbrev pub count_sets : List (ℕ × Call) → ℕ
count_sets [] = 0
count_sets ((now, call) ∷ calls) = one_set call + count_sets calls

-- A call that neither sets nor rejects a promise of the fingerprint nor clears the cache, and that
-- reads the clock, if it does, before `limit`.
abbrev pub Spares : String → ℕ → ℕ × Call → Type 0
Spares k limit (now, gets j) = now < limit
Spares k limit (now, rejects j) = (j == k) ≡ false
Spares k limit (now, sets j p) = (j == k) ≡ false
Spares k limit (now, cleans) = now < limit
Spares k limit (now, clears) = ⊥

-- The cache holds the entry, and has room for so many more.
record Holds (k : String) (x : CacheEntry) (n : ℕ) (d : RequestDeduplicator) : Type 0 where
  found : get k d.cache ≡ some x
  distinct : Distinct d.cache
  enabled : d.config.enabled ≡ true
  room : length d.cache + n ≤ d.config.max_entries

module _ (k : String) (x : CacheEntry) where
  delete-Holds :
      (j : String) (n : ℕ) (d : RequestDeduplicator) {e r m h : ℕ}
      → (j == k) ≡ false
      → Holds k x n d
      → Holds k x n (record d {
        cache = delete j d.cache;
        evictions = e;
        rejections = r;
        misses = m;
        hits = h;
      })
  delete-Holds j n d u v = record {
    found = get-delete_ne k j d.cache u ∙ v.found;
    distinct = delete-Distinct j d.cache v.distinct;
    enabled = v.enabled;
    room = omega (arith, v.room, length-delete_le j d.cache);
  }

  lookup-Holds :
      (j : String) (n now : ℕ) (d : RequestDeduplicator)
      → now < x.expires_at
      → Holds k x n d
      → Holds k x n (lookup d j now).0
  unfolding lookup
  lookup-Holds j n now d l v =
      subst (λ (p : RequestDeduplicator × Option ℕ). Holds k x n p.0)
        (sym (if_true _ (d, none) v.enabled))
        (elim (Option-cases (get j d.cache)) [
          | inl e ↦ rw e (stats v)
          | inr (y, e) ↦ elim (Bool-cases (is_expired now y)) [
            | inr fresh ↦ rw e (
                subst (λ (p : RequestDeduplicator × Option ℕ). Holds k x n p.0)
                  (sym (if_false _ _ fresh)) (stats v))
            | inl old ↦ rw e (
                subst (λ (p : RequestDeduplicator × Option ℕ). Holds k x n p.0)
                  (sym (if_true _ _ old)) (delete-Holds j n d (other y e old) v))
          ]
        ])
    where
      stats : {m h : ℕ} → Holds k x n d → Holds k x n (record d { misses = m; hits = h })
      stats u = record {
        found = u.found;
        distinct = u.distinct;
        enabled = u.enabled;
        room = u.room;
      }

      other : (y : CacheEntry) → get j d.cache ≡ some y → is_expired now y ≡ true → (j == k) ≡ false
      other y e old = elim (==-cases j k) [
        | inr p ↦ p.0
        | inl p ↦
            let e' = subst (λ i. get i d.cache ≡ some y) p.1 e in
            absurd (ground (arith, e', old, l, v.found))
      ]

  store-Holds :
      (j : String) (p now n : ℕ) (d : RequestDeduplicator)
      → (j == k) ≡ false
      → Holds k x (n + 1) d
      → Holds k x n (store d j p now)
  store-Holds j p now n d u v =
      let y : CacheEntry = record {
        promise = p;
        expires_at = now + d.config.ttl_ms;
        fingerprint = j;
        created_at = now;
      } in
      subst (Holds k x n) (sym (store_roomy d j p now v.enabled (omega (arith, v.room)))) (record {
        found = get-put_ne k j y d.cache u ∙ v.found;
        distinct = put-Distinct j y d.cache v.distinct;
        enabled = v.enabled;
        room = omega (arith, v.room, length-put_le j y d.cache);
      })

  cleanup_expired-Holds :
      (now n : ℕ) (d : RequestDeduplicator)
      → now < x.expires_at
      → Holds k x n d
      → Holds k x n (cleanup_expired d now)
  unfolding cleanup_expired
  cleanup_expired-Holds now n d l v =
      let same = sweep_lem (is_expired now) d.cache v.distinct in
      let kept = λ (p : String × CacheEntry). not (is_expired now p.1) in
      record {
        found = get-sweep k (is_expired now) d.cache v.distinct ∙ ground (arith, v.found, l);
        distinct = sweep-Distinct (is_expired now) d.cache v.distinct;
        enabled = v.enabled;
        room = omega (arith, v.room, ap (λ m. length m) same, length-filter_b-le kept d.cache);
      }

  fewer : {n m : ℕ} {d : RequestDeduplicator} → n ≤ m → Holds k x m d → Holds k x n d
  fewer l v = record {
    found = v.found;
    distinct = v.distinct;
    enabled = v.enabled;
    room = omega (arith, v.room, l);
  }

  step-Holds :
      (now n : ℕ) (call : Call) (d : RequestDeduplicator)
      → Spares k x.expires_at (now, call)
      → Holds k x (one_set call + n) d
      → Holds k x n (step d now call)
  unfolding step reject
  step-Holds now n (gets j) d s v = lookup-Holds j n now d s (fewer (omega arith) v)
  step-Holds now n (rejects j) d s v = delete-Holds j n d s (fewer (omega arith) v)
  step-Holds now n (sets j p) d s v = store-Holds j p now n d s (fewer (omega arith) v)
  step-Holds now n cleans d s v = cleanup_expired-Holds now n d s (fewer (omega arith) v)
  step-Holds now n clears d s v = absurd s

  run-Holds :
      (calls : List (ℕ × Call)) (d : RequestDeduplicator)
      → All (Spares k x.expires_at) calls
      → Holds k x (count_sets calls) d
      → Holds k x 0 (run d calls)
  unfolding run
  run-Holds [] d s v = v
  run-Holds ((now, call) ∷ calls) d s v =
      run-Holds calls (step d now call) s.1 (step-Holds now (count_sets calls) call d s.0 v)

-- On an enabled cache that has no fingerprint twice, and has room for it and for the promises that
-- are set later, a promise that was
-- set is what a `get` of its fingerprint answers until it expires, through any calls before then
-- that neither set nor reject a promise of that fingerprint nor clear the cache: other fingerprints'
-- promises, their rejections, lookups and cleanups do not disturb it.
pub lookup-run_shared :
    (d : RequestDeduplicator) (k : String) (p now : ℕ) (calls : List (ℕ × Call)) (later : ℕ)
    → d.config.enabled ≡ true
    → Distinct d.cache
    → length d.cache + 1 + count_sets calls ≤ d.config.max_entries
    → All (Spares k (now + d.config.ttl_ms)) calls
    → later < now + d.config.ttl_ms
    → (lookup (run (store d k p now) calls) k later).1 ≡ some p
lookup-run_shared d k p now calls later on u room s l =
    let x : CacheEntry = record {
      promise = p;
      expires_at = now + d.config.ttl_ms;
      fingerprint = k;
      created_at = now;
    } in
    let set = store_roomy d k p now on (omega (arith, room)) in
    let start : Holds k x (count_sets calls) (store d k p now) =
      subst (Holds k x (count_sets calls)) (sym set) (record {
        found = get-put_self k x d.cache;
        distinct = put-Distinct k x d.cache u;
        enabled = on;
        room = omega (arith, room, length-put_le k x d.cache);
      }) in
    let held = run-Holds k x calls (store d k p now) s start in
    lookup_fresh (run (store d k p now) calls) k later x held.enabled held.found l
