-- ===== src/Dtype/Equality.antt =====
-- Equality of data types, `__eq__` and `__hash__` of src/digitaltwin/components.py.
use digital_twin_framework.Prelude.{
  Text, codes, true, false, ==_iff, ==_refl, nat_eq, list_eq, eqb_iff, Eq, ◌≡◌, ◌↔◌, refl, ap, sym,
  arith, append-cancel_left, append-cancel_right,
}
use digital_twin_framework.Dtype.{
  Dtype, Dtypes, plain, join, window, nil, cons, name, size, dtype_eq, dtypes_eq,
}

-- The label of a window can be read off its name once the data type is known.
window_label : (d : Dtype) (m n : Text) → name (window d n) ≡ name (window d m) → m ≡ n
unfolding name
window_label d m n h =
    let a = append-cancel_left (codes "W[") _ _ h in
    let b = append-cancel_left (name d) _ _ a in
    let c = append-cancel_left (codes " by B-") _ _ b in sym (append-cancel_right (codes "]") _ _ c)

window_lem :
    (d e : Dtype) (m n : Text)
    → d ≡ e
    → name (window e n) ≡ name (window d m)
    → window d m ≡ window e n
window_lem d e m n p h = cc (p, window_label d m n (rw (← p) at h))

mutual
  unfolding dtype_eq

  dtype_eq_sound : (a b : Dtype) → dtype_eq a b ≡ true → a ≡ b
  dtype_eq_sound (plain m) (plain n) h = ground (arith, ==_iff n m)
  dtype_eq_sound (plain m) (join n) h = cc
  dtype_eq_sound (plain m) (window n _) h = cc
  dtype_eq_sound (join ds) (join es) h =
      ground (arith, dtypes_eq_sound ds es, eqb_iff (size es) (size ds))
  dtype_eq_sound (join ds) (plain es) h = cc
  dtype_eq_sound (join ds) (window es _) h = cc
  dtype_eq_sound (window d m) (window e n) h = ground (
    arith,
    dtype_eq_sound d e,
    ==_iff (name (window e n)) (name (window d m)),
    window_lem d e m n,
  )
  dtype_eq_sound (window d m) (plain n) h = cc
  dtype_eq_sound (window d m) (join n) h = cc

  dtypes_eq_sound : (ds es : Dtypes) → size es ≡ size ds → dtypes_eq ds es ≡ true → ds ≡ es
  dtypes_eq_sound nil nil k h = refl
  dtypes_eq_sound nil (cons e es) k h = absurd (omega arith)
  dtypes_eq_sound (cons d ds) nil k h = cc
  dtypes_eq_sound (cons d ds) (cons e es) k h =
      ground (arith, dtype_eq_sound d e, dtypes_eq_sound ds es)

mutual
  unfolding dtype_eq

  dtype_eq_complete : (a : Dtype) → dtype_eq a a ≡ true
  dtype_eq_complete (plain m) = ==_refl m
  dtype_eq_complete (join ds) = ground (arith, dtypes_eq_complete ds, ==_refl (name (join ds)))
  dtype_eq_complete (window d m) = ground (arith, dtype_eq_complete d, ==_refl (name (window d m)))

  dtypes_eq_complete : (ds : Dtypes) → dtypes_eq ds ds ≡ true
  dtypes_eq_complete nil = refl
  dtypes_eq_complete (cons d ds) = ground (arith, dtype_eq_complete d, dtypes_eq_complete ds)

-- `==` on data types holds exactly between a data type and itself.
pub dtype_eq_iff : (a b : Dtype) → (dtype_eq a b ≡ true) ↔ (a ≡ b)
dtype_eq_iff a b = (dtype_eq_sound a b, λ p. rw (← p) (dtype_eq_complete a))

instance abbrev pub dtype_has_eq : Eq Dtype
dtype_has_eq = record { equals = dtype_eq; equals_iff = dtype_eq_iff }

-- Equal data types have equal names, so the hash, which is that of the name, agrees with `==`.
pub name-dtype_eq : (a b : Dtype) → dtype_eq a b ≡ true → name a ≡ name b
name-dtype_eq a b h = ap name (dtype_eq_sound a b h)

-- The name does not determine the data type: a plain type may spell a join's name.
pub name_not_injective :
    (ds : Dtypes)
    → (name (plain (name (join ds))) ≡ name (join ds))
      × (dtype_eq (plain (name (join ds))) (join ds) ≡ false)
unfolding name dtype_eq
name_not_injective ds = (refl, refl)
