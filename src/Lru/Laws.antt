-- ===== src/Lru/Laws.antt =====
-- `LRUCache` of src/digitaltwin/lru.py: what its methods do to the dict, with the lookups gone.
use digital_twin_framework.Prelude.{
  suc, ◌≤◌, true, false, [], ◌∷◌, ◌++◌, none, some, ok, raise, key_error, Dict, lookup, insert,
  erase, has, keys, Eq, ==_refl, length, ltb, if◌then◌else◌, ◌≡◌, refl, ap, arith, lookup-insert,
  lookup-erase, insert_absent, length-append, contains-keys, Distinct, contains, Distinct-snoc,
  nat_eq,
}
use digital_twin_framework.Lru.{Cache, pop_oldest, move_to_end, put_item, fetch_item}

module _ {ℓ} {K V : Type ℓ} ⦃e : Eq K⦄ where
  -- A use of an entry: it becomes the newest.
  unfoldable pub touch : K → V → Dict K V → Dict K V
  touch k v d = erase k d ++ ((k, v) ∷ [])

  pub erase-append : (k : K) (a b : Dict K V) → erase k (a ++ b) ≡ erase k a ++ erase k b
  unfolding erase
  erase-append k [] b = refl
  erase-append k ((j, w) ∷ a) b = ground (arith, erase-append k a b)

  pub erase_absent : (k : K) (d : Dict K V) → lookup k d ≡ none → erase k d ≡ d
  unfolding erase lookup
  erase_absent k [] h = refl
  erase_absent k ((j, w) ∷ d) h = ground (arith, erase_absent k d)

  pub erase-insert : (k : K) (v : V) (d : Dict K V) → erase k (insert k v d) ≡ erase k d
  unfolding erase insert
  erase-insert k v [] = ground (arith, ==_refl k)
  erase-insert k v ((j, w) ∷ d) = ground (arith, erase-insert k v d)

  -- With distinct keys, erasing a key that is there removes one entry.
  pub length-erase : (k : K) (d : Dict K V) → length (erase k d) ≤ length d
  unfolding erase
  length-erase k [] = omega arith
  length-erase k ((j, w) ∷ d) = ground (arith, length-erase k d)

  pub length-erase_present :
      (k : K) (d : Dict K V)
      → Distinct (keys d)
      → has k d ≡ true
      → suc (length (erase k d)) ≡ length d
  unfolding erase lookup
  length-erase_present k [] u h = ground arith
  length-erase_present k ((j, w) ∷ d) u h =
      ground
        (arith, e.equals_iff j k, contains-keys k d, erase_absent k d, length-erase_present k d u.1)

  pub keys-append : (a b : Dict K V) → keys (a ++ b) ≡ keys a ++ keys b
  keys-append [] b = refl
  keys-append ((j, w) ∷ a) b = ap (◌∷◌ j) (keys-append a b)

  pub contains-keys-erase :
      (k j : K) (d : Dict K V) → contains (keys d) j ≡ false → contains (keys (erase k d)) j ≡ false
  contains-keys-erase k j d h =
      ground (arith, contains-keys j (erase k d), contains-keys j d, lookup-erase k j d)

  pub keys-erase-Distinct : (k : K) (d : Dict K V) → Distinct (keys d) → Distinct (keys (erase k d))
  unfolding erase
  keys-erase-Distinct k [] u = tt
  keys-erase-Distinct k ((j, w) ∷ d) u =
      ground (arith, keys-erase-Distinct k d u.1, contains-keys-erase k j d u.0)

  pub absent_after_erase : (k : K) (d : Dict K V) → contains (keys (erase k d)) k ≡ false
  absent_after_erase k d =
      ground (arith, contains-keys k (erase k d), lookup-erase k k d, ==_refl k)

  pub touch-Distinct :
      (k : K) (v : V) (d : Dict K V) → Distinct (keys d) → Distinct (keys (touch k v d))
  unfolding touch
  touch-Distinct k v d u =
      rw keys-append
        (Distinct-snoc (keys (erase k d)) k (keys-erase-Distinct k d u) (absent_after_erase k d))

  pub pop_oldest-Distinct : (d : Dict K V) → Distinct (keys d) → Distinct (keys (pop_oldest d))
  unfolding pop_oldest
  pop_oldest-Distinct [] u = tt
  pop_oldest-Distinct ((j, w) ∷ d) u = u.1

  -- What the methods do, with the lookups gone.
  pub put-present :
      (k : K) (v : V) (c : Cache K V)
      → has k c.cache ≡ true
      → put_item k v c ≡ ok (record c { cache = touch k v c.cache })
  unfolding put_item move_to_end touch
  put-present k v c h =
      ground (arith, lookup-insert k k v c.cache, ==_refl k, erase-insert k v c.cache)

  pub put-absent :
      (k : K) (v : V) (c : Cache K V)
      → has k c.cache ≡ false
      → put_item k v c
        ≡ ok (record c {
          cache =
              if ltb c.max_size (suc (length c.cache))
              then pop_oldest (touch k v c.cache)
              else touch k v c.cache;
        })
  unfolding put_item touch
  put-absent k v c h = ground (
    arith,
    insert_absent k v c.cache,
    erase_absent k c.cache,
    length-append c.cache ((k, v) ∷ []),
  )

  pub fetch-present :
      (k : K) (v : V) (c : Cache K V)
      → lookup k c.cache ≡ some v
      → fetch_item k c ≡ ok (v, record c { cache = touch k v c.cache })
  unfolding fetch_item move_to_end touch
  fetch-present k v c h = ground arith

  pub fetch-absent :
      (k : K) (c : Cache K V) → lookup k c.cache ≡ none → fetch_item k c ≡ raise key_error
  unfolding fetch_item
  fetch-absent k c h = ground arith
