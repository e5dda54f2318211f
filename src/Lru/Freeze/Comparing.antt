-- ===== src/Lru/Freeze/Comparing.antt =====
-- Equality of frozen keys, of src/digitaltwin/lru.py, as a dict compares them. A frozen set is compared
-- as the list of its elements in the order of iteration.
use digital_twin_framework.Prelude.{
  Bool, true, false, ◌&&◌, ◌==◌, ==_iff, ==_refl, nat_eq, Eq, ◌≡◌, ◌↔◌, refl, arith,
}
use digital_twin_framework.Lru.Freeze.{Frozen, Frozens}

unfoldable mutual
  pub frozen_beq : Frozen → Frozen → Bool
  frozen_beq (Frozen.atom m) (Frozen.atom n) = m == n
  frozen_beq (Frozen.tuple xs) (Frozen.tuple ys) = frozens_beq xs ys
  frozen_beq (Frozen.frozenset xs) (Frozen.frozenset ys) = frozens_beq xs ys
  frozen_beq _ _ = false

  pub frozens_beq : Frozens → Frozens → Bool
  frozens_beq Frozens.nil Frozens.nil = true
  frozens_beq (Frozens.cons x xs) (Frozens.cons y ys) = frozen_beq x y && frozens_beq xs ys
  frozens_beq _ _ = false

mutual
  unfolding frozen_beq

  frozen_sound : (x y : Frozen) → frozen_beq x y ≡ true → x ≡ y
  frozen_sound (Frozen.atom m) (Frozen.atom n) h = ground (arith, ==_iff m n)
  frozen_sound (Frozen.atom m) (Frozen.tuple ys) h = cc
  frozen_sound (Frozen.atom m) (Frozen.frozenset ys) h = cc
  frozen_sound (Frozen.tuple xs) (Frozen.tuple ys) h = ground (arith, frozens_sound xs ys)
  frozen_sound (Frozen.tuple xs) (Frozen.atom n) h = cc
  frozen_sound (Frozen.tuple xs) (Frozen.frozenset ys) h = cc
  frozen_sound (Frozen.frozenset xs) (Frozen.frozenset ys) h = ground (arith, frozens_sound xs ys)
  frozen_sound (Frozen.frozenset xs) (Frozen.atom n) h = cc
  frozen_sound (Frozen.frozenset xs) (Frozen.tuple ys) h = cc

  frozens_sound : (xs ys : Frozens) → frozens_beq xs ys ≡ true → xs ≡ ys
  frozens_sound Frozens.nil Frozens.nil h = refl
  frozens_sound Frozens.nil (Frozens.cons y ys) h = cc
  frozens_sound (Frozens.cons x xs) Frozens.nil h = cc
  frozens_sound (Frozens.cons x xs) (Frozens.cons y ys) h =
      ground (arith, frozen_sound x y, frozens_sound xs ys)

mutual
  unfolding frozen_beq

  frozen_complete : (x : Frozen) → frozen_beq x x ≡ true
  frozen_complete (Frozen.atom m) = ==_refl m
  frozen_complete (Frozen.tuple xs) = frozens_complete xs
  frozen_complete (Frozen.frozenset xs) = frozens_complete xs

  frozens_complete : (xs : Frozens) → frozens_beq xs xs ≡ true
  frozens_complete Frozens.nil = refl
  frozens_complete (Frozens.cons x xs) = ground (arith, frozen_complete x, frozens_complete xs)

pub frozen_beq_iff : (x y : Frozen) → (frozen_beq x y ≡ true) ↔ (x ≡ y)
frozen_beq_iff x y = (frozen_sound x y, λ p. rw (← p) (frozen_complete x))

instance abbrev pub frozen_has_eq : Eq Frozen
frozen_has_eq = record { equals = frozen_beq; equals_iff = frozen_beq_iff }
