-- ===== src/Barrier/Carrying.antt =====
-- A hard stream of a barrier as a queue. `Barrier` of src/digitaltwin/components.py.
use digital_twin_framework.Prelude.{
  zero, Text, true, false, List, [], ◌∷◌, ◌++◌, Option, none, some, done, waiting, Dict, lookup,
  insert, ltb, Result, ok, raise, ◌≡◌, ◌≢◌, ◌∙◌, ◌+◌, suc, refl, arith, Bool-cases, inl, inr, ◌⊎◌,
  lookup-insert, ◌==◌, ==_refl, ==_ne, All, All-append,
}
use digital_twin_framework.Dtype.{Dtype, TypedData}
use digital_twin_framework.Dtype.Equality.{dtype_has_eq}
use digital_twin_framework.Barrier.{
  Stream, Phase, starting, collecting, failed, Barrier, put_stream, put_kind, put_hard, put_soft,
  put, take_item, get_stream, get, emit, emit_one, emit_next, emit_soft, finished, advance,
  run_step,
}

queue_in : {V : Type 0} → Option (Stream V) → List (TypedData V)
queue_in none = []
queue_in (some s) = s.queue

unfoldable pub queue_of : {V : Type 0} → Dtype → Barrier V → List (TypedData V)
unfolding queue_in
queue_of d b = queue_in (lookup d b.streams)

abbrev pub Typed : {V : Type 0} → Dtype → TypedData V → Type 0
Typed d t = t.dtype ≡ d

emit_next-other :
    {V : Type 0} (sequence : List V → V) (d e : Dtype) (rest : Dict Dtype (Stream V))
    (p : Dict Dtype (Stream V) × Result (Unit {0})) (q : Stream V × Result (Unit {0}))
    (s : Stream V)
    → (e == d) ≡ false
    → lookup d p.0 ≡ some s
    → lookup d rest ≡ some s
    → lookup d (emit_next sequence e rest p q).0 ≡ some s
unfolding emit_next lookup
emit_next-other sequence d e rest p (s', ok u) s ne h k = ground arith
emit_next-other sequence d e rest p (s', raise x) s ne h k = ground arith

-- The end of a round leaves a hard stream alone.
emit_hard :
    {V : Type 0} (sequence : List V → V) (d : Dtype) (name : Text) (streams : Dict Dtype (Stream V))
    (s : Stream V)
    → lookup d streams ≡ some s
    → s.hard ≡ true
    → lookup d (emit sequence name streams).0 ≡ some s
unfolding emit emit_next emit_one emit_soft lookup
emit_hard sequence d name [] s h k = cc
emit_hard sequence d name ((e, r) ∷ rest) s h k = elim (Bool-cases (e == d)) [
  | inl y ↦ let same : r ≡ s = ground arith in rw (same, k, y) refl
  | inr y ↦
      let below : lookup d rest ≡ some s = ground arith in
      emit_next-other sequence d e rest (emit sequence name rest) (emit_one sequence name e r) s y
        (emit_hard sequence d name rest s below k) below
]

-- A barrier with a hard stream of a data type, and nothing but that data type in it.
pub record Carries {V : Type 0} (d : Dtype) (b : Barrier V) : Type 0 where
  pub stream : Stream V
  pub found : lookup d b.streams ≡ some stream
  pub is_hard : stream.hard ≡ true
  pub typed : All (Typed d) stream.queue

module _ {V : Type 0} (d : Dtype) (b : Barrier V) (h : Carries d b) where
  -- A change that leaves the stream alone.
  unchanged :
      (c : Barrier V)
      → lookup d c.streams ≡ lookup d b.streams
      → Carries d c × (queue_of d c ≡ queue_of d b)
  unfolding queue_of
  unchanged c e = (
    record { stream = h.stream; found = e ∙ h.found; is_hard = h.is_hard; typed = h.typed },
    rw e refl,
  )

  pub put_own :
      (t : TypedData V)
      → t.dtype ≡ d
      → (((put t b).0 ≡ done)
          × Carries d (put t b).1
          × (queue_of d (put t b).1 ≡ queue_of d b ++ (t ∷ [])))
        ⊎ (put t b ≡ (waiting, b))
  unfolding put put_stream put_kind put_hard queue_of queue_in
  put_own t e = elim (Bool-cases (ltb h.stream.version (suc b.global_version))) [
    | inl l ↦
        let s' : Stream V = record h.stream {
          version = h.stream.version + 1;
          queue = h.stream.queue ++ (t ∷ []);
        } in
        let found' : lookup d (put t b).1.streams ≡ some s' =
          rw (e, h.found, h.is_hard, l) ground (arith, ==_refl d, lookup-insert d d s' b.streams) in
        inl (
          rw (e, h.found, h.is_hard, l) refl,
          record {
            stream = s';
            found = found';
            is_hard = h.is_hard;
            typed = All-append (Typed d) h.stream.queue (t ∷ []) h.typed (e, tt);
          },
          rw (found', h.found) refl,
        )
    | inr l ↦ inr (rw (e, h.found, h.is_hard, l) refl)
  ]

  take_own :
      (q : List (TypedData V))
      → h.stream.queue ≡ q
      → All (Typed d) q
      → ((t : TypedData V) × ((take_item d h.stream true b q).0 ≡ done)
          × ((take_item d h.stream true b q).1 ≡ some t)
          × Carries d (take_item d h.stream true b q).2
          × (h.stream.queue ≡ t ∷ queue_of d (take_item d h.stream true b q).2)
          × (t.dtype ≡ d))
        ⊎ (take_item d h.stream true b q ≡ (waiting, none, b))
  unfolding take_item queue_of queue_in
  take_own [] e a = inr refl
  take_own (t ∷ ts) e a =
      let s' : Stream V = record h.stream { queue = ts } in
      let found' : lookup d (insert d s' b.streams) ≡ some s' =
        ground (arith, ==_refl d, lookup-insert d d s' b.streams) in
      inl (
        t,
        refl,
        refl,
        record { stream = s'; found = found'; is_hard = h.is_hard; typed = a.1 },
        rw (found', e) refl,
        a.0,
      )

  pub get_own :
      ((t : TypedData V) × ((get d true b).0 ≡ done)
        × ((get d true b).1 ≡ some t)
        × Carries d (get d true b).2
        × (queue_of d b ≡ t ∷ queue_of d (get d true b).2)
        × (t.dtype ≡ d))
      ⊎ (get d true b ≡ (waiting, none, b))
  unfolding get get_stream queue_of queue_in
  get_own = let own = take_own h.stream.queue refl h.typed in rw h.found own

  put_streams :
      (t : TypedData V) (o : Option (Stream V))
      → t.dtype ≢ d
      → lookup d (put_stream t o b).1.streams ≡ lookup d b.streams
  unfolding put_stream put_kind put_hard put_soft
  put_streams t none ne = refl
  put_streams t (some s) ne = elim (Bool-cases s.hard) [
    | inl k ↦ rw k elim (Bool-cases (ltb s.version (suc b.global_version))) [
      | inl l ↦ rw (l, lookup-insert, ==_ne t.dtype d ne) refl
      | inr l ↦ rw l refl
    ]
    | inr k ↦ rw (k, lookup-insert, ==_ne t.dtype d ne) refl
  ]

  pub put_other :
      (t : TypedData V)
      → t.dtype ≢ d
      → Carries d (put t b).1 × (queue_of d (put t b).1 ≡ queue_of d b)
  unfolding put
  put_other t ne = unchanged (put t b).1 (put_streams t (lookup t.dtype b.streams) ne)

  get_streams :
      (e : Dtype) (o : Option (Stream V))
      → e ≢ d
      → lookup d (get_stream e true b o).2.streams ≡ lookup d b.streams
  unfolding get_stream take_item
  get_streams e none ne = refl
  get_streams e (some s) ne = take_other e s s.queue ne
    where
      take_other :
          (e : Dtype) (s : Stream V) (q : List (TypedData V))
          → e ≢ d
          → lookup d (take_item e s true b q).2.streams ≡ lookup d b.streams
      take_other e s [] ne = refl
      take_other e s (t ∷ ts) ne = rw (lookup-insert, ==_ne e d ne) refl

  pub get_other :
      (e : Dtype)
      → e ≢ d
      → Carries d (get e true b).2 × (queue_of d (get e true b).2 ≡ queue_of d b)
  unfolding get
  get_other e ne = unchanged (get e true b).2 (get_streams e (lookup e b.streams) ne)

  pub run-Carries :
      (sequence : List V → V)
      → Carries d (run_step sequence b).1 × (queue_of d (run_step sequence b).1 ≡ queue_of d b)
  unfolding run_step advance finished
  run-Carries sequence = unchanged (run_step sequence b).1 (advance_streams b.phase)
    where
      done_streams :
          (r : Dict Dtype (Stream V) × Result (Unit {0})) → (finished sequence b r).1.streams ≡ r.0
      done_streams (streams, ok u) = refl
      done_streams (streams, raise e) = refl

      advance_streams : (p : Phase) → lookup d (advance sequence p b).1.streams ≡ lookup d b.streams
      advance_streams starting = ground arith
      advance_streams (collecting zero) =
          rw
            (
              done_streams,
              emit_hard sequence d b.name b.streams h.stream h.found h.is_hard,
              h.found,
            )
            refl
      advance_streams (collecting (suc n)) = ground arith
      advance_streams (failed e) = refl
