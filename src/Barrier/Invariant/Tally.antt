-- ===== src/Barrier/Invariant/Tally.antt =====
-- Counting the streams of a `Barrier`, src/digitaltwin/components.py, by hardness and version.
use digital_twin_framework.Prelude.{
  ℕ, ◌+◌, ◌≤◌, Text, Bool, true, ◌&&◌, List, [], ◌∷◌, none, some, Dict, lookup, insert,
  if◌then◌else◌, ◌≡◌, refl, arith,
}
use digital_twin_framework.Dtype.{Dtype}
use digital_twin_framework.Dtype.Equality.{dtype_has_eq}
use digital_twin_framework.Barrier.{Stream, emit, emit_one}

module _ {V : Type 0} where
  unfoldable pub tally : (Bool → ℕ → Bool) → Dict Dtype (Stream V) → ℕ
  tally P [] = 0
  tally P ((d, s) ∷ l) = (if P s.hard s.version then 1 else 0) + tally P l

  unfoldable pub each : (Bool → ℕ → Bool) → Dict Dtype (Stream V) → Bool
  each P [] = true
  each P ((d, s) ∷ l) = P s.hard s.version && each P l

  module _ (P : Bool → ℕ → Bool) (k : Dtype) (s' : Stream V) where
    pub tally-insert :
        (l : Dict Dtype (Stream V)) (s : Stream V)
        → lookup k l ≡ some s
        → tally P (insert k s' l) + (if P s.hard s.version then 1 else 0)
          ≡ tally P l + (if P s'.hard s'.version then 1 else 0)
    unfolding tally lookup insert
    tally-insert [] s h = ground arith
    tally-insert ((d, t) ∷ l) s h = ground (arith, tally-insert l s)

    pub each-insert :
        (l : Dict Dtype (Stream V))
        → each P l ≡ true
        → P s'.hard s'.version ≡ true
        → each P (insert k s' l) ≡ true
    unfolding each insert
    each-insert [] h p = ground arith
    each-insert ((d, t) ∷ l) h p = ground (arith, each-insert l)

    pub tally-insert_absent :
        (l : Dict Dtype (Stream V))
        → lookup k l ≡ none
        → tally P (insert k s' l) ≡ tally P l + (if P s'.hard s'.version then 1 else 0)
    unfolding tally lookup insert
    tally-insert_absent [] h = ground arith
    tally-insert_absent ((d, t) ∷ l) h = ground (arith, tally-insert_absent l)

  pub each-lookup :
      (P : Bool → ℕ → Bool) (k : Dtype) (l : Dict Dtype (Stream V)) (s : Stream V)
      → each P l ≡ true
      → lookup k l ≡ some s
      → P s.hard s.version ≡ true
  unfolding each lookup
  each-lookup P k [] s h e = ground arith
  each-lookup P k ((d, t) ∷ l) s h e = ground (arith, each-lookup P k l s)

  pub tally-le :
      (P Q : Bool → ℕ → Bool)
      → ((h : Bool) (v : ℕ) → P h v ≡ true → Q h v ≡ true)
      → (l : Dict Dtype (Stream V)) → tally P l ≤ tally Q l
  unfolding tally
  tally-le P Q f [] = omega arith
  tally-le P Q f ((d, s) ∷ l) = ground (arith, f s.hard s.version, tally-le P Q f l)

  -- Where no more streams are `Q` than are `P`, each `Q` is a `P`.
  pub each_of_tally :
      (P Q R : Bool → ℕ → Bool)
      → ((h : Bool) (v : ℕ) → P h v ≡ true → Q h v ≡ true)
      → ((h : Bool) (v : ℕ) → (Q h v ≡ true → P h v ≡ true) → R h v ≡ true)
      → (l : Dict Dtype (Stream V)) → tally Q l ≤ tally P l
      → each R l ≡ true
  unfolding tally each
  each_of_tally P Q R f g [] h = refl
  each_of_tally P Q R f g ((d, s) ∷ l) h =
      ground
        (arith, f s.hard s.version, g s.hard s.version, tally-le P Q f l, each_of_tally P Q R f g l)

  module _ (sequence : List V → V) (name : Text) (P : Bool → ℕ → Bool) where
    emit_one-keeps :
        (d : Dtype) (s : Stream V)
        → P (emit_one sequence name d s).0.hard (emit_one sequence name d s).0.version
          ≡ P s.hard s.version
    unfolding emit_one
    emit_one-keeps d s = ground arith

    -- The soft emission changes no stream's hardness or version.
    pub emit-tally : (l : Dict Dtype (Stream V)) → tally P (emit sequence name l).0 ≡ tally P l
    unfolding tally emit
    emit-tally [] = refl
    emit-tally ((d, s) ∷ l) = ground (arith, emit-tally l)

    pub emit-each : (l : Dict Dtype (Stream V)) → each P (emit sequence name l).0 ≡ each P l
    unfolding each emit
    emit-each [] = refl
    emit-each ((d, s) ∷ l) = ground (arith, emit-each l)
