-- ===== src/Runtime/Joining/Rounds.antt =====
-- One round of a join. src/digitaltwin/runtime.py.
use digital_twin_framework.Prelude.{
  true, false, List, [], ◌∷◌, ◌++◌, Option, none, some, Dict, lookup, insert, keys, ◌≡◌, ◌∙◌, subst,
  refl, sym, ap, arith, Bool-cases, inl, inr, ◌==◌, ==_iff, All, filter, contains, Distinct,
  keys-insert-Distinct, append-nil, append_assoc,
}
use digital_twin_framework.Dtype.{Dtype, Dtypes, nil, cons, TypedData}
use digital_twin_framework.Dtype.Equality.{dtype_has_eq}
use digital_twin_framework.Runtime.Joining.{Input, empty_input, queues, with_result, gather}

module _ {V : Type 0} where
  abbrev pub listed : Option (TypedData V) → List (TypedData V)
  listed none = []
  listed (some t) = t ∷ []

  -- What a queue and the pending `get` hold.
  abbrev pub held : Input V → List (TypedData V)
  held i = listed i.taken ++ listed i.queued

  abbrev pub held_in : Option (Input V) → List (TypedData V)
  held_in none = []
  held_in (some i) = held i

  abbrev pub of_dtype : Dtype → List (TypedData V) → List (TypedData V)
  of_dtype d ts = filter (λ t. t.dtype == d) ts

  abbrev pub dtypes_of : List (TypedData V) → List Dtype
  dtypes_of [] = []
  dtypes_of (t ∷ ts) = t.dtype ∷ dtypes_of ts

  -- The items of a data type in all submissions.
  abbrev pub sent : Dtype → List (List (TypedData V)) → List (TypedData V)
  sent d [] = []
  sent d (ts ∷ tss) = of_dtype d ts ++ sent d tss

  pub sent-snoc :
      (d : Dtype) (tss : List (List (TypedData V))) (ts : List (TypedData V))
      → sent d (tss ++ (ts ∷ [])) ≡ sent d tss ++ of_dtype d ts
  sent-snoc d [] ts = append-nil _
  sent-snoc d (us ∷ tss) ts =
      ap (λ z. of_dtype d us ++ z) (sent-snoc d tss ts) ∙ sym (append_assoc (of_dtype d us) _ _)

  abbrev pub AllTyped : Dict Dtype (Input V) → Type 0
  AllTyped [] = Unit
  AllTyped ((d, i) ∷ m) = All (λ t. t.dtype ≡ d) (held i) × AllTyped m

  pub insert-AllTyped :
      (d : Dtype) (i : Input V) (m : Dict Dtype (Input V))
      → All (λ t. t.dtype ≡ d) (held i)
      → AllTyped m
      → AllTyped (insert d i m)
  unfolding insert
  insert-AllTyped d i [] h k = (h, tt)
  insert-AllTyped d i ((e, l) ∷ m) h k = elim (Bool-cases (e == d)) [
    | inl y ↦ let same = (==_iff e d).0 y in rw (y, same) (h, k.1)
    | inr y ↦ rw y (k.0, insert-AllTyped d i m h k.1)
  ]

  pub lookup-AllTyped :
      (d : Dtype) (i : Input V) (m : Dict Dtype (Input V))
      → AllTyped m
      → lookup d m ≡ some i
      → All (λ t. t.dtype ≡ d) (held i)
  unfolding lookup
  lookup-AllTyped d i [] k h = cc
  lookup-AllTyped d i ((e, l) ∷ m) k h = elim (Bool-cases (e == d)) [
    | inl y ↦
        let same = (==_iff e d).0 y in
        let this : l ≡ i = ground arith in
        subst (λ x. All (λ t. t.dtype ≡ d) (held x)) this
          (subst (λ x. All (λ t. t.dtype ≡ x) (held l)) same k.0)
    | inr y ↦ lookup-AllTyped d i m k.1 (ground arith)
  ]

  none_of :
      (d : Dtype) (ts : List (TypedData V)) → contains (dtypes_of ts) d ≡ false → of_dtype d ts ≡ []
  none_of d [] h = refl
  none_of d (t ∷ ts) h = ground (arith, none_of d ts)

  -- What a round that submits these items and leaves these queues does.
  abbrev pub Gathers :
      Dtype → Dict Dtype (Input V) → List (TypedData V) × Dict Dtype (Input V) → Type 0
  Gathers d m (ts, m') =
      (dtypes_of ts ≡ keys m)
      × (keys m' ≡ keys m)
      × AllTyped m'
      × (held_in (lookup d m) ≡ of_dtype d ts ++ held_in (lookup d m'))

  one_gathered :
      (d e : Dtype) (i : Input V) (m : Dict Dtype (Input V)) (t : TypedData V)
      (ts : List (TypedData V)) (m' : Dict Dtype (Input V))
      → i.taken ≡ some t
      → contains (keys m) e ≡ false
      → All (λ t. t.dtype ≡ e) (held i)
      → Gathers d m (ts, m')
      → Gathers d ((e, i) ∷ m) (t ∷ ts, (e, record i { taken = none }) ∷ m')
  unfolding lookup
  one_gathered d e i m t ts m' o u k (g0, g1, g2, g3) =
      let typed : (t.dtype ≡ e) × All (λ x. x.dtype ≡ e) (listed i.queued) = rw o at k in
      (
        rw (typed.0, g0) refl,
        rw g1 refl,
        (typed.1, g2),
        elim (Bool-cases (e == d)) [
          | inl y ↦
              let same = (==_iff e d).0 y in
              let others : of_dtype d ts ≡ [] = none_of d ts (rw (g0, ← same) u) in
              let yes : (t.dtype == d) ≡ true = rw typed.0 y in rw (y, yes, o, others) refl
          | inr y ↦ let no : (t.dtype == d) ≡ false = rw typed.0 y in rw (y, no) g3
        ],
      )

  with_gathered :
      (d e : Dtype) (i : Input V) (m : Dict Dtype (Input V)) (o : Option (TypedData V))
      (rest : Option (List (TypedData V) × Dict Dtype (Input V)))
      (p : List (TypedData V) × Dict Dtype (Input V))
      → i.taken ≡ o
      → contains (keys m) e ≡ false
      → All (λ t. t.dtype ≡ e) (held i)
      → ((q : List (TypedData V) × Dict Dtype (Input V)) → rest ≡ some q → Gathers d m q)
      → with_result e i o rest ≡ some p
      → Gathers d ((e, i) ∷ m) p
  unfolding with_result
  with_gathered d e i m none rest p o u k g h = cc
  with_gathered d e i m (some t) none p o u k g h = cc
  with_gathered d e i m (some t) (some (ts, m')) p o u k g h =
      let same : (t ∷ ts, (e, record i { taken = none }) ∷ m') ≡ p = cc in
      subst (λ z. Gathers d ((e, i) ∷ m) z) same
        (one_gathered d e i m t ts m' o u k (g (ts, m') refl))

  -- A round of the main loop.
  pub gathered :
      (d : Dtype) (m : Dict Dtype (Input V)) (p : List (TypedData V) × Dict Dtype (Input V))
      → Distinct (keys m)
      → AllTyped m
      → gather m ≡ some p
      → Gathers d m p
  unfolding gather lookup
  gathered d [] p u k h =
      let same : ([], []) ≡ p = cc in subst (λ z. Gathers d [] z) same (refl, refl, tt, refl)
  gathered d ((e, i) ∷ m) p u k h =
      with_gathered d e i m i.taken (gather m) p refl u.0 k.0 (λ q r. gathered d m q u.1 k.1 r) h

  -- The queues of a new join.
  insert-empty :
      (d : Dtype) (m : Dict Dtype (Input V))
      → All (λ p. p.1 ≡ empty_input) m
      → All (λ p. p.1 ≡ empty_input) (insert d empty_input m)
  unfolding insert
  insert-empty d [] h = (refl, tt)
  insert-empty d ((e, i) ∷ m) h = elim (Bool-cases (e == d)) [
    | inl y ↦ rw y (refl, h.1)
    | inr y ↦ rw y (h.0, insert-empty d m h.1)
  ]

  pub queues-empty :
      (ds : Dtypes) (m : Dict Dtype (Input V))
      → All (λ p. p.1 ≡ empty_input) m
      → Distinct (keys m)
      → All (λ p. p.1 ≡ empty_input) (queues ds m) × Distinct (keys (queues ds m))
  unfolding queues
  queues-empty nil m h u = (h, u)
  queues-empty (cons d ds) m h u =
      queues-empty ds (insert d empty_input m) (insert-empty d m h)
        (keys-insert-Distinct d empty_input m u)

  pub empty-typed : (m : Dict Dtype (Input V)) → All (λ p. p.1 ≡ empty_input) m → AllTyped m
  empty-typed [] h = tt
  empty-typed ((e, i) ∷ m) h = (rw h.0 tt, empty-typed m h.1)

  pub empty-held :
      (d : Dtype) (m : Dict Dtype (Input V))
      → All (λ p. p.1 ≡ empty_input) m
      → held_in (lookup d m) ≡ []
  unfolding lookup
  empty-held d [] h = refl
  empty-held d ((e, i) ∷ m) h = elim (Bool-cases (e == d)) [
    | inl y ↦ rw (y, h.0) refl
    | inr y ↦ let rest = empty-held d m h.1 in rw y rest
  ]
