-- ===== src/Runtime/Shared/Once.antt =====
-- How often shared subtasks are computed. src/digitaltwin/runtime.py.
use digital_twin_framework.Prelude.{
  ℕ, suc, ◌≤◌, true, false, List, [], ◌∷◌, ◌++◌, none, some, ok, Eq, ◌==◌, ==_iff, ==_refl, Dict,
  lookup, has, keys, length, contains, contains-keys, discard, Distinct, ◌≡◌, refl, arith, inl, inr,
  if◌then◌else◌, All, ◌∙◌, Option-cases, contains-discard_ne, false≢true, lookup-erase, erase,
}
use digital_twin_framework.Lru.{new_cache, put_item, exists}
use digital_twin_framework.Lru.Laws.{
  touch, put-absent, fetch-present, touch-Distinct, absent_after_erase,
}
use digital_twin_framework.Runtime.Shared.{Shared, new_shared, fetch_key}

module _ {K : Type 0} ⦃e : Eq K⦄ where
  length-discard_le : (x : K) (ys : List K) → length (discard ys x) ≤ length ys
  length-discard_le x [] = omega arith
  length-discard_le x (y ∷ ys) = ground (arith, length-discard_le x ys)

  length-discard :
      (x : K) (ys : List K) → contains ys x ≡ true → suc (length (discard ys x)) ≤ length ys
  length-discard x [] h = ground arith
  length-discard x (y ∷ ys) h = ground (arith, length-discard x ys, length-discard_le x ys)

  abbrev In : List K → K → Type 0
  In ys x = contains ys x ≡ true

  All-discard :
      (x : K) (xs ys : List K) → contains xs x ≡ false → All (In ys) xs → All (In (discard ys x)) xs
  All-discard x [] ys h a = tt
  All-discard x (y ∷ xs) ys h (p, a) = (
    contains-discard_ne ys x y (λ q. ground (arith, ==_iff y x)) ∙ p,
    All-discard x xs ys (ground arith) a,
  )

  -- Distinct keys that all stand in a list are no more than it is long.
  length-le-length : (xs ys : List K) → Distinct xs → All (In ys) xs → length xs ≤ length ys
  length-le-length [] ys d a = omega arith
  length-le-length (x ∷ xs) ys d a =
      let rest = length-le-length xs (discard ys x) d.1 (All-discard x xs ys d.0 a.1) in
      omega (arith, rest, length-discard x ys a.0)

  All-of-contains :
      (P : K → Type 0) (xs : List K) → ((x : K) → contains xs x ≡ true → P x) → All P xs
  All-of-contains P [] h = tt
  All-of-contains P (x ∷ xs) h =
      (h x (ground (arith, ==_refl x)), All-of-contains P xs (λ y p. h y (ground arith)))

module _ {K V : Type 0} ⦃e : Eq K⦄ where
  length-keys : (d : Dict K V) → length (keys d) ≡ length d
  length-keys [] = refl
  length-keys ((k, v) ∷ d) = omega (arith, length-keys d)

  lookup-snoc_absent :
      (k j : K) (v : V) (d : Dict K V)
      → contains (keys d) k ≡ false
      → lookup j (d ++ ((k, v) ∷ [])) ≡ (if k == j then some v else lookup j d)
  unfolding lookup
  lookup-snoc_absent k j v [] h = ground arith
  lookup-snoc_absent k j v ((i, w) ∷ d) h =
      ground (arith, lookup-snoc_absent k j v d, ==_iff k j, ==_iff i k, ==_iff i j)

  pub lookup-touch_all :
      (k j : K) (v : V) (d : Dict K V)
      → lookup j (touch k v d) ≡ (if k == j then some v else lookup j d)
  unfolding touch
  lookup-touch_all k j v d =
      ground
        (arith, lookup-snoc_absent k j v (erase k d) (absent_after_erase k d), lookup-erase k j d)

module _ {K : Type 0} ⦃e : Eq K⦄ where
  -- Nothing was evicted: the entries are the futures that were started, once for each key.
  pub record IsComplete (universe : List K) (s : Shared K) : Type 0 where
    pub room : length universe ≤ s.cache.max_size
    pub distinct : Distinct (keys s.cache.cache)
    pub inside : (k : K) → has k s.cache.cache ≡ true → contains universe k ≡ true
    pub once : Distinct (keys s.started)
    pub same : (k : K) → lookup k s.cache.cache ≡ lookup k s.started

  pub new_shared-IsComplete :
      (universe : List K) (size : ℕ)
      → length universe ≤ size
      → IsComplete universe (new_shared size)
  unfolding new_shared new_cache lookup
  new_shared-IsComplete universe size h = record {
    room = h;
    distinct = tt;
    inside = λ k p. absurd (false≢true p);
    once = tt;
    same = λ k. refl;
  }

  -- There is room for a key that is not in the cache.
  has_room :
      (universe : List K) (key : K) (s : Shared K)
      → IsComplete universe s
      → contains universe key ≡ true
      → has key s.cache.cache ≡ false
      → suc (length s.cache.cache) ≤ s.cache.max_size
  has_room universe key s h u absent =
      let d = s.cache.cache in
      let fits =
        length-le-length (key ∷ keys d) universe (rw (contains-keys key d) absent, h.distinct)
          (
            u,
            All-of-contains (In universe) (keys d) (λ k p. h.inside k (rw (← contains-keys k d) p)),
          ) in
      omega (arith, fits, length-keys d, h.room)

  -- What a call gives: the one future of its key.
  pub record Answers (universe : List K) (key : K) (s : Shared K) (fut : ℕ) (s' : Shared K)
      : Type 0 where
    pub answer : fetch_key key s ≡ ok (fut, s')
    pub complete : IsComplete universe s'
    pub mine : lookup key s'.started ≡ some fut
    pub kept : (k : K) (v : ℕ) → lookup k s.started ≡ some v → lookup k s'.started ≡ some v

  fetch_old :
      (universe : List K) (key : K) (s : Shared K) (fut : ℕ)
      → IsComplete universe s
      → lookup key s.cache.cache ≡ some fut
      → Answers universe key s fut
          (record s { cache = record s.cache { cache = touch key fut s.cache.cache } })
  unfolding fetch_key exists
  fetch_old universe key s fut h l = record {
    answer = ground (arith, fetch-present key fut s.cache l);
    complete = record {
      room = h.room;
      distinct = touch-Distinct key fut s.cache.cache h.distinct;
      inside = λ k p.
          h.inside k (ground (arith, lookup-touch_all key k fut s.cache.cache, ==_iff key k));
      once = h.once;
      same = λ k. ground (arith, lookup-touch_all key k fut s.cache.cache, h.same k, ==_iff key k);
    };
    mine = ground (arith, h.same key);
    kept = λ k v p. p;
  }

  -- The cache with a new key, which fits.
  new_entry : K → Shared K → Shared K
  new_entry key s = record {
    cache = record s.cache { cache = touch key s.next s.cache.cache };
    started = (key, s.next) ∷ s.started;
    next = suc s.next;
  }

  put_fits :
      (key : K) (s : Shared K)
      → has key s.cache.cache ≡ false
      → suc (length s.cache.cache) ≤ s.cache.max_size
      → put_item key s.next s.cache ≡ ok (new_entry key s).cache
  unfolding new_entry
  put_fits key s absent fits = put-absent key s.next s.cache absent ∙ ground arith

  fetch_new :
      (universe : List K) (key : K) (s : Shared K)
      → IsComplete universe s
      → contains universe key ≡ true
      → lookup key s.cache.cache ≡ none
      → Answers universe key s s.next (new_entry key s)
  unfolding fetch_key exists new_entry lookup
  fetch_new universe key s h u l =
      let absent : has key s.cache.cache ≡ false = ground arith in
      let fits = has_room universe key s h u absent in
      record {
        answer = ground (arith, put_fits key s absent fits);
        complete = record {
          room = h.room;
          distinct = touch-Distinct key s.next s.cache.cache h.distinct;
          inside = λ k p.
              ground (arith, lookup-touch_all key k s.next s.cache.cache, h.inside k, ==_iff key k);
          once = (ground (arith, contains-keys key s.started, h.same key), h.once);
          same = λ k. ground (arith, lookup-touch_all key k s.next s.cache.cache, h.same k);
        };
        mine = ground (arith, ==_refl key);
        kept = λ k v p. ground (arith, h.same key, ==_iff key k);
      }

  pub fetch-Answers :
      (universe : List K) (key : K) (s : Shared K)
      → IsComplete universe s
      → contains universe key ≡ true
      → (fut : ℕ) × (s' : Shared K) × Answers universe key s fut s'
  fetch-Answers universe key s h u = elim (Option-cases (lookup key s.cache.cache)) [
    | inl l ↦ (s.next, new_entry key s, fetch_new universe key s h u l)
    | inr (fut, l) ↦ (fut, _, fetch_old universe key s fut h l)
  ]
