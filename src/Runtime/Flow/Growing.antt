-- ===== src/Runtime/Flow/Growing.antt =====
-- A barrier that is added to a chain in use: `add_barrier` while `_launch_b_consumer` already waits on
-- the barrier that was the last one, src/digitaltwin/runtime.py.
use digital_twin_framework.Prelude.{
  ℕ, zero, suc, ◌-◌, true, List, [], ◌∷◌, ◌++◌, length, length-append, ◌≡◌, refl, arith, ap, ◌∙◌,
}
use digital_twin_framework.Dtype.{Dtype, TypedData}
use digital_twin_framework.Barrier.{Barrier, get}
use digital_twin_framework.Runtime.Flow.{Hand, free, holding, Cell, Line, got, give, hand_on}

-- A line, and the place of the barrier that `_launch_b_consumer` waits on.
pub record Waiting (V : Type 0) : Type 0 where
  pub line : Line V
  pub parked : ℕ

module _ {V : Type 0} where
  -- `add_barrier` at the end of the chain, with the consumer that puts into the new barrier.
  unfoldable pub grow : Barrier V → Waiting V → Waiting V
  grow b w = record w { line = record w.line { cells = w.line.cells ++ ((free, b) ∷ []) } }

  module _ (d : Dtype) where
    -- What the barrier at a place gives.
    unfoldable pub give_at : ℕ → List (Cell V) → Hand V × List (Cell V)
    unfolding got
    give_at n [] = (free, [])
    give_at zero ((h, b) ∷ cells) = let (hand, b') = got (get d true b) in (hand, (h, b') ∷ cells)
    give_at (suc n) (c ∷ cells) = let (hand, rest) = give_at n cells in (hand, c ∷ rest)

    -- Where the loop waits next: it looks for the last barrier anew after each item.
    next_wait : Hand V → ℕ → List (Cell V) → ℕ
    next_wait (holding t) n cells = length cells - 1
    next_wait _ n cells = n

    -- One step of `_launch_b_consumer`.
    unfoldable pub hand_next : Waiting V → Waiting V
    unfolding give_at next_wait hand_on
    hand_next w =
        let r = give_at w.parked w.line.cells in
        record { line = hand_on r w.line; parked = next_wait r.0 w.parked r.1 }

    give_at-last :
        (c : Cell V) (cells : List (Cell V))
        → give_at (length cells) (c ∷ cells) ≡ give d (c ∷ cells)
    unfolding give_at give
    give_at-last (h, b) [] = refl
    give_at-last c (c' ∷ cells) = ap (λ r. (r.0, c ∷ r.1)) (give_at-last c' cells)

    give_at-append :
        (n : ℕ) (cells more : List (Cell V))
        → suc n ≡ length cells
        → give_at n (cells ++ more) ≡ ((give_at n cells).0, (give_at n cells).1 ++ more)
    unfolding give_at
    give_at-append n [] more h = absurd (omega (arith, h))
    give_at-append zero ((k, b) ∷ cells) more h = refl
    give_at-append (suc n) (c ∷ cells) more h =
        ap (λ r. (r.0, c ∷ r.1)) (give_at-append n cells more (omega (arith, h)))

    give_at-give :
        (n : ℕ) (cells : List (Cell V)) → suc n ≡ length cells → give_at n cells ≡ give d cells
    give_at-give n [] h = absurd (omega (arith, h))
    give_at-give n (c ∷ cells) h =
        let k : n ≡ length cells = omega (arith, h) in
        ap (λ m. give_at m (c ∷ cells)) k ∙ give_at-last c cells

    -- A barrier that is added to a chain in use is bypassed by one item: the consumer at the end of the
    -- chain still waits on the barrier that was the last one, so the next item of that barrier is
    -- delivered and never enters the new barrier; after it the consumer waits on the new one.
    pub grown_chain_bypassed :
        (l : Line V) (n : ℕ) (t : TypedData V) (cells : List (Cell V)) (b : Barrier V)
        → suc n ≡ length l.cells
        → give d l.cells ≡ (holding t, cells)
        → let w = hand_next (grow b (record { line = l; parked = n })) in
          (w.line.delivered ≡ l.delivered ++ (t ∷ []))
          × (w.line.cells ≡ cells ++ ((free, b) ∷ []))
          × (suc w.parked ≡ length w.line.cells)
    unfolding hand_next grow next_wait hand_on
    grown_chain_bypassed l n t cells b h k =
        let e = give_at-append n l.cells ((free, b) ∷ []) h in
        let e' = give_at-give n l.cells h ∙ k in
        rw (e, e') (refl, refl, omega (arith, length-append cells ((free, b) ∷ [])))
