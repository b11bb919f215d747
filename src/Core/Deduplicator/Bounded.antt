-- ===== src/Core/Deduplicator/Bounded.antt =====
-- The size of the cache of src/core/request-deduplicator.ts.
use mlx_serving.Prelude.{
  ℕ, ◌+◌, ◌≤◌, ◌<◌, ◌≡◌, refl, sym, ap, ◌∙◌, subst, Bool, true, false, not, Option, none, List, [],
  ◌∷◌, String, ◌==◌, string_eq, if_true, if_false, if_both, leb, length, filter_b,
  length-filter_b-le, All, arith, Bool-cases, Option-cases, List-cases, inl, inr,
}
use mlx_serving.JsMap.{
  JsMap, get, put, delete, sweep_lem, Distinct, put-Distinct, delete-Distinct, filter_b-Distinct,
  delete_head,
}
use mlx_serving.Core.Deduplicator.{
  RequestDeduplicatorConfig, CacheEntry, RequestDeduplicator, new, is_expired, lookup, evict_oldest,
  store, reject, cleanup_expired, clear, Call, gets, rejects, sets, cleans, clears, step, run,
}

abbrev AreNamed : JsMap String CacheEntry → Type 0
AreNamed m = All (λ p. (p.0 == "") ≡ false) m

-- No fingerprint has two entries or is empty, and there are no more entries than allowed.
pub record IsValid (most : ℕ) (d : RequestDeduplicator) : Type 0 where
  pub same_limit : d.config.max_entries ≡ most
  pub distinct : Distinct d.cache
  pub named : All (λ p. (p.0 == "") ≡ false) d.cache
  pub bounded : length d.cache ≤ most

AreNamed-put :
    (k : String) (x : CacheEntry) (m : JsMap String CacheEntry)
    → (k == "") ≡ false
    → AreNamed m
    → AreNamed (put k x m)
unfolding put
AreNamed-put k x [] n a = (n, tt)
AreNamed-put k x ((j, y) ∷ m) n a =
    if_both AreNamed (j == k) (a.0, a.1) (a.0, AreNamed-put k x m n a.1)

AreNamed-delete : (k : String) (m : JsMap String CacheEntry) → AreNamed m → AreNamed (delete k m)
unfolding delete
AreNamed-delete k [] a = tt
AreNamed-delete k ((j, y) ∷ m) a = if_both AreNamed (j == k) a.1 (a.0, AreNamed-delete k m a.1)

AreNamed-filter :
    (p : String × CacheEntry → Bool) (m : JsMap String CacheEntry)
    → AreNamed m
    → AreNamed (filter_b p m)
AreNamed-filter p [] a = tt
AreNamed-filter p (x ∷ m) a =
    if_both AreNamed (p x) (a.0, AreNamed-filter p m a.1) (AreNamed-filter p m a.1)

pub length-delete_le : (k : String) (m : JsMap String CacheEntry) → length (delete k m) ≤ length m
unfolding delete
length-delete_le k [] = omega arith
length-delete_le k ((j, y) ∷ m) = ground (arith, length-delete_le k m)

pub length-put_le :
    (k : String) (x : CacheEntry) (m : JsMap String CacheEntry) → length (put k x m) ≤ length m + 1
unfolding put
length-put_le k x [] = omega arith
length-put_le k x ((j, y) ∷ m) = ground (arith, length-put_le k x m)

delete-IsValid :
    (most : ℕ) (k : String) (d : RequestDeduplicator) (e r m h : ℕ)
    → IsValid most d
    → IsValid most
        (record d { cache = delete k d.cache; evictions = e; rejections = r; misses = m; hits = h })
delete-IsValid most k d e r m h v = record {
  same_limit = v.same_limit;
  distinct = delete-Distinct k d.cache v.distinct;
  named = AreNamed-delete k d.cache v.named;
  bounded = omega (arith, v.bounded, length-delete_le k d.cache);
}

lookup-IsValid :
    (most : ℕ) (d : RequestDeduplicator) (k : String) (now : ℕ)
    → IsValid most d
    → IsValid most (lookup d k now).0
unfolding lookup
lookup-IsValid most d k now v = elim (Bool-cases d.config.enabled) [
  | inr n ↦
      subst (λ (p : RequestDeduplicator × Option ℕ). IsValid most p.0)
        (sym (if_false _ (d, none) n)) v
  | inl n ↦
      subst (λ (p : RequestDeduplicator × Option ℕ). IsValid most p.0) (sym (if_true _ (d, none) n))
        (elim (Option-cases (get k d.cache)) [
          | inl e ↦ rw e (stats v)
          | inr (x, e) ↦ rw e (
              if_both (λ (p : RequestDeduplicator × Option ℕ). IsValid most p.0) (is_expired now x)
                (delete-IsValid most k d (d.evictions + 1) d.rejections (d.misses + 1) d.hits v)
                (stats v))
        ])
]
  where
    stats : {m h : ℕ} → IsValid most d → IsValid most (record d { misses = m; hits = h })
    stats u = record {
      same_limit = u.same_limit;
      distinct = u.distinct;
      named = u.named;
      bounded = u.bounded;
    }

-- Room for one entry is made.
evict_oldest-room :
    (most : ℕ) (d : RequestDeduplicator)
    → 1 ≤ most
    → IsValid most d
    → leb most (length d.cache) ≡ true
    → IsValid most (evict_oldest d) × (length (evict_oldest d).cache < most)
unfolding evict_oldest
evict_oldest-room most d l v full = elim (List-cases d.cache) [
  | inl e ↦ absurd (ground (arith, full, l, ap (λ x. length x) e))
  | inr ((k, x), rest, e) ↦
      let named = subst AreNamed e v.named in
      let same = ap (delete k) e ∙ delete_head k x rest in
      let size = ap (λ y. length y) e in
      let left = ap (λ y. length y) same in
      rw (e, evict_oldest)
        (rw (named.0) (
          delete-IsValid most k d (d.evictions + 1) d.rejections d.misses d.hits v,
          omega (arith, v.bounded, size, left),
        ))
]

pub store-IsValid :
    (most : ℕ) (d : RequestDeduplicator) (k : String) (p now : ℕ)
    → 1 ≤ most
    → (k == "") ≡ false
    → IsValid most d
    → IsValid most (store d k p now)
unfolding store
store-IsValid most d k p now l n v =
    let x : CacheEntry = record {
      promise = p;
      expires_at = now + d.config.ttl_ms;
      fingerprint = k;
      created_at = now;
    } in
    let added : (e : RequestDeduplicator)
        → IsValid most e
        → length e.cache < most
        → IsValid most (record e { cache = put k x e.cache }) =
      λ e w room. record {
        same_limit = w.same_limit;
        distinct = put-Distinct k x e.cache w.distinct;
        named = AreNamed-put k x e.cache n w.named;
        bounded = omega (arith, room, length-put_le k x e.cache);
      } in
    elim (Bool-cases d.config.enabled) [
      | inr off ↦ subst (IsValid most) (sym (if_false _ d off)) v
      | inl on ↦
          subst (IsValid most) (sym (if_true _ d on))
            (elim (Bool-cases (leb d.config.max_entries (length d.cache))) [
              | inl full ↦
                  let (w, room) =
                    evict_oldest-room most d l v
                      (ap (λ m. leb m (length d.cache)) (sym v.same_limit) ∙ full) in
                  subst (λ e. IsValid most (record e { cache = put k x e.cache }))
                    (sym (if_true (evict_oldest d) d full)) (added (evict_oldest d) w room)
              | inr free ↦
                  subst (λ e. IsValid most (record e { cache = put k x e.cache }))
                    (sym (if_false (evict_oldest d) d free))
                    (added d v (ground (arith, free, v.same_limit)))
            ])
    ]

cleanup_expired-IsValid :
    (most : ℕ) (d : RequestDeduplicator) (now : ℕ)
    → IsValid most d
    → IsValid most (cleanup_expired d now)
unfolding cleanup_expired
cleanup_expired-IsValid most d now v =
    let kept = λ (x : String × CacheEntry). not (is_expired now x.1) in
    let same = sweep_lem (is_expired now) d.cache v.distinct in
    record {
      same_limit = v.same_limit;
      distinct = subst (λ m. Distinct m) (sym same) (filter_b-Distinct kept d.cache v.distinct);
      named = subst AreNamed (sym same) (AreNamed-filter kept d.cache v.named);
      bounded = omega (arith, ap (λ m. length m) same, length-filter_b-le kept d.cache, v.bounded);
    }

-- A call that sets nothing under the empty fingerprint.
abbrev pub is_named : Call → Bool
is_named (sets k p) = not (k == "")
is_named (gets k) = true
is_named (rejects k) = true
is_named cleans = true
is_named clears = true

step-IsValid :
    (most : ℕ) (d : RequestDeduplicator) (now : ℕ) (call : Call)
    → 1 ≤ most
    → is_named call ≡ true
    → IsValid most d
    → IsValid most (step d now call)
unfolding step reject clear
step-IsValid most d now (gets k) l n v = lookup-IsValid most d k now v
step-IsValid most d now (rejects k) l n v =
    delete-IsValid most k d d.evictions (d.rejections + 1) d.misses d.hits v
step-IsValid most d now (sets k p) l n v = store-IsValid most d k p now l (ground (arith, n)) v
step-IsValid most d now cleans l n v = cleanup_expired-IsValid most d now v
step-IsValid most d now clears l n v = record {
  same_limit = v.same_limit;
  distinct = tt;
  named = tt;
  bounded = omega arith;
}

run_from-IsValid :
    (most : ℕ) (d : RequestDeduplicator) (calls : List (ℕ × Call))
    → 1 ≤ most
    → All (λ c. is_named c.1 ≡ true) calls
    → IsValid most d
    → IsValid most (run d calls)
unfolding run
run_from-IsValid most d [] l n v = v
run_from-IsValid most d ((now, call) ∷ calls) l n v =
    run_from-IsValid most (step d now call) calls l n.1 (step-IsValid most d now call l n.0 v)

-- With room for one entry, whatever calls and rejections follow, as long as nothing is set under the
-- empty fingerprint: no fingerprint has two entries, and there are never more than maxEntries.
pub run_dedup-IsValid :
    (config : RequestDeduplicatorConfig) (calls : List (ℕ × Call))
    → 1 ≤ config.max_entries
    → All (λ c. is_named c.1 ≡ true) calls
    → IsValid config.max_entries (run (new config) calls)
unfolding new
run_dedup-IsValid config calls l n =
    run_from-IsValid config.max_entries (new config) calls l n
      (record { same_limit = refl; distinct = tt; named = tt; bounded = omega arith })
