-- ===== src/Lru/History.antt =====
-- `LRUCache` of src/digitaltwin/lru.py against the history of its uses.
use digital_twin_framework.Prelude.{
  ℕ, suc, ◌≤◌, ◌<◌, true, false, List, [], ◌∷◌, ◌++◌, some, Result, ok, raise, Dict, lookup, erase,
  has, keys, Eq, ==_refl, length, ltb, ◌≡◌, ◌⊎◌, inl, inr, refl, ap, arith, Bool-cases,
  Option-cases, append_assoc, length-append, contains-keys, Distinct, contains, nat_eq, tests, ◌∙◌,
  ok-injective,
}
use digital_twin_framework.Lru.{Cache, pop_oldest, put_item, fetch_item}
use digital_twin_framework.Lru.Laws.{
  touch, erase-append, erase_absent, length-erase_present, absent_after_erase, touch-Distinct,
  pop_oldest-Distinct, put-present, put-absent, fetch-present, fetch-absent,
}

module _ {ℓ} {K V : Type ℓ} ⦃e : Eq K⦄ where
  -- The cache is the end of the history, and something is forgotten only when the cache is full.
  pub record Tracks (c : Cache K V) (h : Dict K V) : Type ℓ where
    pub forgotten : Dict K V
    pub suffix : h ≡ forgotten ++ c.cache
    pub full : (forgotten ≡ []) ⊎ (length c.cache ≡ c.max_size)
    pub bounded : length c.cache ≤ c.max_size
    pub distinct : Distinct (keys c.cache)

-- A call on the cache.
pub data Call {ℓ} (K V : Type ℓ) : Type ℓ where
  put : K → V → Call K V
  fetch : K → Call K V

module _ {ℓ} {K V : Type ℓ} ⦃e : Eq K⦄ where
  touch-append : (k : K) (v : V) (a b : Dict K V) → touch k v (a ++ b) ≡ erase k a ++ touch k v b
  unfolding touch
  touch-append k v a b = rw (erase-append, append_assoc)

  length-touch_present :
      (k : K) (v : V) (d : Dict K V)
      → Distinct (keys d)
      → has k d ≡ true
      → length (touch k v d) ≡ length d
  unfolding touch
  length-touch_present k v d u h =
      omega (arith, length-append (erase k d) ((k, v) ∷ []), length-erase_present k d u h)

  length-touch_absent :
      (k : K) (v : V) (d : Dict K V) → has k d ≡ false → length (touch k v d) ≡ suc (length d)
  unfolding touch
  length-touch_absent k v d h =
      ground (arith, length-append (erase k d) ((k, v) ∷ []), erase_absent k d)

  erase-nil : (k : K) (d : Dict K V) → d ≡ [] → erase k d ≡ []
  unfolding erase
  erase-nil k d p = rw p

  Tracks-touch :
      (k : K) (v : V) (c : Cache K V) (h : Dict K V)
      → has k c.cache ≡ true
      → Tracks c h
      → Tracks (record c { cache = touch k v c.cache }) (touch k v h)
  Tracks-touch k v c h p t = record {
    forgotten = erase k t.forgotten;
    suffix = rw (t.suffix, touch-append);
    full = elim t.full [
      | inl z ↦ inl (erase-nil k t.forgotten z)
      | inr z ↦ inr (length-touch_present k v c.cache t.distinct p ∙ z)
    ];
    bounded = omega (arith, length-touch_present k v c.cache t.distinct p, t.bounded);
    distinct = touch-Distinct k v c.cache t.distinct;
  }

  -- A new key that fits.
  Tracks-grow :
      (k : K) (v : V) (c : Cache K V) (h : Dict K V)
      → has k c.cache ≡ false
      → suc (length c.cache) ≤ c.max_size
      → Tracks c h
      → Tracks (record c { cache = touch k v c.cache }) (touch k v h)
  Tracks-grow k v c h p fits t = record {
    forgotten = erase k t.forgotten;
    suffix = rw (t.suffix, touch-append);
    full = elim t.full [ inl z ↦ inl (erase-nil k t.forgotten z) | inr z ↦ absurd (omega arith) ];
    bounded = omega (arith, length-touch_absent k v c.cache p);
    distinct = touch-Distinct k v c.cache t.distinct;
  }

  split_oldest :
      (d : Dict K V) (n : ℕ)
      → length d ≡ suc n
      → (x : K × V) × (d ≡ x ∷ pop_oldest d) × (length (pop_oldest d) ≡ n)
  unfolding pop_oldest
  split_oldest [] n h = absurd (omega arith)
  split_oldest (x ∷ d) n h = (x, refl, omega arith)

  -- A new key that does not fit: the oldest entry is forgotten.
  Tracks-evict :
      (k : K) (v : V) (c : Cache K V) (h : Dict K V)
      → has k c.cache ≡ false
      → c.max_size < suc (length c.cache)
      → Tracks c h
      → Tracks (record c { cache = pop_oldest (touch k v c.cache) }) (touch k v h)
  Tracks-evict k v c h p over t =
      let (x, splits, len) =
        split_oldest (touch k v c.cache) (length c.cache) (length-touch_absent k v c.cache p) in
      record {
        forgotten = erase k t.forgotten ++ (x ∷ []);
        suffix = rw (t.suffix, touch-append, append_assoc) (ap (◌++◌ (erase k t.forgotten)) splits);
        full = inr (omega (arith, t.bounded));
        bounded = omega (arith, t.bounded);
        distinct = pop_oldest-Distinct _ (touch-Distinct k v c.cache t.distinct);
      }

  -- A call, with the history of uses beside it: a `put_item` is a use, and so is a `fetch_item`
  -- that returns.
  pub fetched : K → Cache K V × Dict K V → Result (V × Cache K V) → Cache K V × Dict K V
  fetched k (c, h) (ok (v, c')) = (c', touch k v h)
  fetched k (c, h) (raise x) = (c, h)

  pub stored : K → V → Cache K V × Dict K V → Result (Cache K V) → Cache K V × Dict K V
  stored k v (c, h) (ok c') = (c', touch k v h)
  stored k v (c, h) (raise x) = (c, h)

  unfoldable pub run : List (Call K V) → Cache K V × Dict K V → Cache K V × Dict K V
  unfolding fetched stored
  run [] s = s
  run (put k v ∷ calls) s = run calls (stored k v s (put_item k v s.0))
  run (fetch k ∷ calls) s = run calls (fetched k s (fetch_item k s.0))

  Tracks-put :
      (k : K) (v : V) (c : Cache K V) (h : Dict K V)
      → Tracks c h
      → Tracks (stored k v (c, h) (put_item k v c)).0 (stored k v (c, h) (put_item k v c)).1
  unfolding stored
  Tracks-put k v c h t = elim (Bool-cases (has k c.cache)) [
    | inl p ↦ rw (put-present k v c p) (Tracks-touch k v c h p t)
    | inr p ↦ rw (put-absent k v c p) (elim (Bool-cases (ltb c.max_size (suc (length c.cache)))) [
      | inl o ↦ rw o (Tracks-evict k v c h p (omega (tests, o)) t)
      | inr o ↦ rw o (Tracks-grow k v c h p (ground arith) t)
    ])
  ]

  Tracks-fetch :
      (k : K) (c : Cache K V) (h : Dict K V)
      → Tracks c h
      → Tracks (fetched k (c, h) (fetch_item k c)).0 (fetched k (c, h) (fetch_item k c)).1
  unfolding fetched
  Tracks-fetch k c h t = elim (Option-cases (lookup k c.cache)) [
    | inl p ↦ rw (fetch-absent k c p) t
    | inr (v, p) ↦ rw (fetch-present k v c p) (Tracks-touch k v c h (rw p) t)
  ]

  -- After any calls on a cache that tracks its history of uses, it still does: it holds the end of
  -- the history, each key once, at most `max_size` entries, and all of the history unless it is
  -- full.
  pub run-Tracks :
      (calls : List (Call K V)) (c : Cache K V) (h : Dict K V)
      → Tracks c h
      → Tracks (run calls (c, h)).0 (run calls (c, h)).1
  unfolding run
  run-Tracks [] c h t = t
  run-Tracks (put k v ∷ calls) c h t = run-Tracks calls _ _ (Tracks-put k v c h t)
  run-Tracks (fetch k ∷ calls) c h t = run-Tracks calls _ _ (Tracks-fetch k c h t)

  -- `put_item` never raises.
  pub put_item_total : (k : K) (v : V) (c : Cache K V) → (c' : Cache K V) × (put_item k v c ≡ ok c')
  put_item_total k v c = elim (Bool-cases (has k c.cache)) [
    | inl p ↦ (_, put-present k v c p)
    | inr p ↦ (_, put-absent k v c p)
  ]

  lookup-snoc :
      (k : K) (v : V) (d : Dict K V)
      → contains (keys d) k ≡ false
      → lookup k (d ++ ((k, v) ∷ [])) ≡ some v
  unfolding lookup
  lookup-snoc k v [] h = ground (arith, ==_refl k)
  lookup-snoc k v ((j, w) ∷ d) h = ground (arith, lookup-snoc k v d)

  lookup-touch : (k : K) (v : V) (d : Dict K V) → lookup k (touch k v d) ≡ some v
  unfolding touch
  lookup-touch k v d = lookup-snoc k v (erase k d) (absent_after_erase k d)

  lookup-pop_oldest :
      (k : K) (v : V) (d : Dict K V)
      → contains (keys d) k ≡ false
      → 0 < length d
      → lookup k (pop_oldest (d ++ ((k, v) ∷ []))) ≡ some v
  unfolding pop_oldest
  lookup-pop_oldest k v [] h p = absurd (omega arith)
  lookup-pop_oldest k v ((j, w) ∷ d) h p = lookup-snoc k v d (ground arith)

  lookup-put :
      (k : K) (v : V) (c c' : Cache K V)
      → 0 < c.max_size
      → put_item k v c ≡ ok c'
      → lookup k c'.cache ≡ some v
  lookup-put k v c c' p h = elim (Bool-cases (has k c.cache)) [
    | inl q ↦ rw (← ok-injective (rw (put-present k v c q) at h)) (lookup-touch k v c.cache)
    | inr q ↦
        rw (← ok-injective (rw (put-absent k v c q) at h))
          (elim (Bool-cases (ltb c.max_size (suc (length c.cache)))) [
            | inl o ↦ rw o (
                unfold touch in
                rw (erase_absent k c.cache (ground arith))
                  (lookup-pop_oldest k v c.cache (contains-keys k c.cache ∙ q) (omega (tests, o))))
            | inr o ↦ rw o (lookup-touch k v c.cache)
          ])
  ]

  -- With room for one entry, what was put is fetched.
  pub fetch-put :
      (k : K) (v : V) (c c' : Cache K V)
      → 0 < c.max_size
      → put_item k v c ≡ ok c'
      → (c'' : Cache K V) × (fetch_item k c' ≡ ok (v, c''))
  fetch-put k v c c' p h = (_, fetch-present k v c' (lookup-put k v c c' p h))
