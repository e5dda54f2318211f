-- ===== src/Lru.antt =====
-- The asynchronous cache `LRUCache` of src/digitaltwin/lru.py. Both coroutines hold `edit_lock`
-- while they change the cache, so each is one step; `fetch_item` looks the key up before it takes
-- the lock, and `move_to_end` raises `KeyError` for a key that has gone by then.
pub mod Laws
pub mod History
pub mod Freeze
use digital_twin_framework.Prelude.{
  ℕ, Bool, true, false, List, [], ◌∷◌, ◌++◌, Option, none, some, Result, ok, raise, key_error,
  ◌>>=◌, Dict, lookup, insert, erase, has, Eq, length, ltb, if◌then◌else◌, not,
}

pub record Cache {ℓ} (K V : Type ℓ) : Type ℓ where
  pub cache : Dict K V
  pub max_size : ℕ

module _ {ℓ} {K V : Type ℓ} where
  unfoldable pub new_cache : ℕ → Cache K V
  new_cache size = record { cache = []; max_size = size }

  -- `popitem(last=False)` of a dict that is not empty: the oldest entry goes.
  unfoldable pub pop_oldest : Dict K V → Dict K V
  pop_oldest [] = []
  pop_oldest (e ∷ d) = d

module _ {ℓ} {K V : Type ℓ} ⦃e : Eq K⦄ where
  -- `move_to_end(key)`, with the value that stands there.
  unfoldable pub move_to_end : K → Dict K V → Result (V × Dict K V)
  move_to_end k d = elim (lookup k d) [
    | none ↦ raise key_error
    | some v ↦ ok (v, erase k d ++ ((k, v) ∷ []))
  ]

  -- After the assignment of a key that was there, `move_to_end` finds it.
  assigned : Cache K V → Result (V × Dict K V) → Result (Cache K V)
  assigned c (ok (v, d)) = ok (record c { cache = d })
  assigned c (raise x) = raise x

  unfoldable pub put_item : K → V → Cache K V → Result (Cache K V)
  unfolding assigned
  put_item k v c =
      if has k c.cache
      then assigned c (move_to_end k (insert k v c.cache))
      else let d = insert k v c.cache in
        ok (record c { cache = if ltb c.max_size (length d) then pop_oldest d else d })

  fetched : Cache K V → Result (V × Dict K V) → Result (V × Cache K V)
  fetched c (ok (v, d)) = ok (v, record c { cache = d })
  fetched c (raise x) = raise x

  unfoldable pub fetch_item : K → Cache K V → Result (V × Cache K V)
  unfolding fetched
  fetch_item k c =
      if not (has k c.cache) then raise key_error else fetched c (move_to_end k c.cache)

  unfoldable pub exists : K → Cache K V → Bool
  exists k c = has k c.cache
