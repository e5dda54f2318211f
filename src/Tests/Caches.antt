-- ===== src/Tests/Caches.antt =====
-- A cache with room for two entries.
use digital_twin_framework.Prelude.{ℕ, List, [], ◌∷◌, nat_eq, refl, arith, inl}
use digital_twin_framework.Lru.{Cache, new_cache}
use digital_twin_framework.Lru.History.{Tracks, Call, run, run-Tracks}
use digital_twin_framework.Lru.Freeze.{Frozen, Frozens}

abbrev small : Cache ℕ ℕ
small = new_cache 2

small-Tracks : Tracks small []
unfolding new_cache
small-Tracks = record {
  forgotten = [];
  suffix = refl;
  full = inl refl;
  bounded = omega arith;
  distinct = tt;
}

-- The third key evicts the first.
abbrev calls : List (Call ℕ ℕ)
calls = Call.put 1 10 ∷ Call.put 2 20 ∷ Call.put 3 30 ∷ Call.fetch 2 ∷ []

run-Tracks_example : Tracks (run calls (small, [])).0 (run calls (small, [])).1
run-Tracks_example = run-Tracks calls small [] small-Tracks

abbrev key : Frozen
key = Frozen.tuple (Frozens.cons (Frozen.atom 1) Frozens.nil)
