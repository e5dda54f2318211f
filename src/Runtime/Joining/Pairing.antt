-- ===== src/Runtime/Joining/Pairing.antt =====
-- What a join submits: the items of each data type in the order of their arrival, one of each in every
-- round. src/digitaltwin/runtime.py.
use digital_twin_framework.Prelude.{
  Bool, true, false, List, [], ◌∷◌, ◌++◌, Option, none, some, Status, done, raised, waiting, Dict,
  lookup, insert, keys, if◌then◌else◌, ◌≡◌, ◌∙◌, subst, refl, sym, ap, arith, Bool-cases, inl, inr,
  ◌==◌, ==_iff, All, All-append, Distinct, lookup-insert, append-nil, append_assoc,
}
use digital_twin_framework.Dtype.{Dtype, Dtypes, TypedData}
use digital_twin_framework.Dtype.Equality.{dtype_has_eq}
use digital_twin_framework.Runtime.Joining.{
  Input, Join, Event, updating, getting, gathering, queues, new_join, put_input, put_queued, update,
  take_input, take_queued, take, gather, submit, step, steps,
}
use digital_twin_framework.Runtime.Joining.Rounds.{
  listed, held, held_in, of_dtype, dtypes_of, sent, sent-snoc, AllTyped, insert-AllTyped,
  lookup-AllTyped, gathered, queues-empty, empty-typed, empty-held,
}

module _ {V : Type 0} where
  -- What `update` took of a data type, in order.
  abbrev accepted_by : Dtype → TypedData V → Status → List (TypedData V)
  accepted_by d t done = of_dtype d (t ∷ [])
  accepted_by d t waiting = []
  accepted_by d t (raised e) = []

  abbrev accepted_in : Dtype → Event V → Join V → List (TypedData V)
  accepted_in d (updating t) j = accepted_by d t (update t j).0
  accepted_in d x j = []

  abbrev pub accepted : Dtype → List (Event V) → Join V → List (TypedData V)
  accepted d [] j = []
  accepted d (x ∷ xs) j = accepted_in d x j ++ accepted d xs (step x j)

  -- A join of these data types, for one of them and what was accepted of it.
  pub record Pairs (ks : List Dtype) (d : Dtype) (j : Join V) (came : List (TypedData V))
      : Type 0 where
    pub names : keys j.inputs ≡ ks
    pub distinct : Distinct ks
    pub typed : AllTyped j.inputs
    pub complete : All (λ ts. dtypes_of ts ≡ ks) j.submitted
    pub in_order : came ≡ sent d j.submitted ++ held_in (lookup d j.inputs)

  keys-insert_present :
      (e : Dtype) (i i' : Input V) (m : Dict Dtype (Input V))
      → lookup e m ≡ some i
      → keys (insert e i' m) ≡ keys m
  unfolding lookup insert
  keys-insert_present e i i' [] h = cc
  keys-insert_present e i i' ((k, l) ∷ m) h = ground (arith, keys-insert_present e i i' m)

  same_dtype :
      (d e : Dtype) (o : Option (TypedData V)) (b : Bool)
      → (e == d) ≡ b
      → All (λ t. t.dtype ≡ e) (listed o)
      → of_dtype d (listed o) ≡ (if b then listed o else [])
  same_dtype d e none true h a = refl
  same_dtype d e none false h a = refl
  same_dtype d e (some t) true h a = let yes : (t.dtype == d) ≡ true = rw a.0 h in rw yes refl
  same_dtype d e (some t) false h a = let no : (t.dtype == d) ≡ false = rw a.0 h in rw no refl

  -- An input that changes and gains what `update` took, if anything.
  assign-Pairs :
      (ks : List Dtype) (d e : Dtype) (i i' : Input V) (o : Option (TypedData V)) (j : Join V)
      (came : List (TypedData V))
      → lookup e j.inputs ≡ some i
      → All (λ t. t.dtype ≡ e) (listed o)
      → held i' ≡ held i ++ listed o
      → Pairs ks d j came
      → Pairs ks d (record j { inputs = insert e i' j.inputs }) (came ++ of_dtype d (listed o))
  assign-Pairs ks d e i i' o j came h a g f = record {
    names = keys-insert_present e i i' j.inputs h ∙ f.names;
    distinct = f.distinct;
    typed =
        insert-AllTyped e i' j.inputs
          (subst (λ z. All (λ t. t.dtype ≡ e) z) (sym g)
            (All-append _ (held i) (listed o) (lookup-AllTyped e i j.inputs f.typed h) a))
          f.typed;
    complete = f.complete;
    in_order = elim (Bool-cases (e == d)) [
      | inl y ↦
          let same = (==_iff e d).0 y in
          let mine : lookup d j.inputs ≡ some i = rw⁻¹ same h in
          let regroup = append_assoc (sent d j.submitted) (held i) (listed o) in
          rw (lookup-insert, y, same_dtype d e o true y a, g, f.in_order, mine) regroup
      | inr y ↦
          let before = f.in_order in
          rw (lookup-insert, y, same_dtype d e o false y a, append-nil) before
    ];
  }

  put-Pairs :
      (ks : List Dtype) (d : Dtype) (t : TypedData V) (o : Option (TypedData V)) (i : Input V)
      (j : Join V) (came : List (TypedData V))
      → lookup t.dtype j.inputs ≡ some i
      → i.queued ≡ o
      → Pairs ks d j came
      → Pairs ks d (put_queued t o i j).1 (came ++ accepted_by d t (put_queued t o i j).0)
  unfolding put_queued
  put-Pairs ks d t (some u) i j came e q f = rw append-nil f
  put-Pairs ks d t none i j came e q f =
      assign-Pairs ks d t.dtype i (record i { queued = some t }) (some t) j came e (refl, tt)
        (rw (q, append-nil) refl) f

  update-Pairs :
      (ks : List Dtype) (d : Dtype) (t : TypedData V) (o : Option (Input V)) (j : Join V)
      (came : List (TypedData V))
      → lookup t.dtype j.inputs ≡ o
      → Pairs ks d j came
      → Pairs ks d (put_input t o j).1 (came ++ accepted_by d t (put_input t o j).0)
  unfolding put_input
  update-Pairs ks d t none j came e f = rw append-nil f
  update-Pairs ks d t (some i) j came e f = put-Pairs ks d t i.queued i j came e refl f

  take-Pairs :
      (ks : List Dtype) (d e : Dtype) (o : Option (TypedData V)) (i : Input V) (j : Join V)
      (came : List (TypedData V))
      → lookup e j.inputs ≡ some i
      → i.taken ≡ o
      → Pairs ks d j came
      → Pairs ks d (take_queued e o i j) came
  unfolding take_queued
  take-Pairs ks d e (some t) i j came h q f = f
  take-Pairs ks d e none i j came h q f =
      let next =
        assign-Pairs ks d e i (record { queued = none; taken = i.queued }) none j came h tt
          (rw q refl) f in
      rw append-nil at next

  get-Pairs :
      (ks : List Dtype) (d e : Dtype) (o : Option (Input V)) (j : Join V)
      (came : List (TypedData V))
      → lookup e j.inputs ≡ o
      → Pairs ks d j came
      → Pairs ks d (take_input e o j) came
  unfolding take_input
  get-Pairs ks d e none j came h f = f
  get-Pairs ks d e (some i) j came h f = take-Pairs ks d e i.taken i j came h refl f

  submit-Pairs :
      (ks : List Dtype) (d : Dtype) (o : Option (List (TypedData V) × Dict Dtype (Input V)))
      (j : Join V) (came : List (TypedData V))
      → gather j.inputs ≡ o
      → Pairs ks d j came
      → Pairs ks d (submit o j) came
  unfolding submit
  submit-Pairs ks d none j came h f = f
  submit-Pairs ks d (some (ts, m)) j came h f =
      let (g0, g1, g2, g3) = gathered d j.inputs (ts, m) (rw f.names f.distinct) f.typed h in
      record {
        names = g1 ∙ f.names;
        distinct = f.distinct;
        typed = g2;
        complete = All-append _ j.submitted (ts ∷ []) f.complete (g0 ∙ f.names, tt);
        in_order =
            f.in_order
            ∙ ap (λ z. sent d j.submitted ++ z) g3
            ∙ sym (append_assoc (sent d j.submitted) (of_dtype d ts) (held_in (lookup d m)))
            ∙ ap (λ z. z ++ held_in (lookup d m)) (sym (sent-snoc d j.submitted ts));
      }

  step-Pairs :
      (ks : List Dtype) (d : Dtype) (x : Event V) (j : Join V) (came : List (TypedData V))
      → Pairs ks d j came
      → Pairs ks d (step x j) (came ++ accepted_in d x j)
  unfolding step update take
  step-Pairs ks d (updating t) j came f =
      update-Pairs ks d t (lookup t.dtype j.inputs) j came refl f
  step-Pairs ks d (getting e) j came f =
      let next = get-Pairs ks d e (lookup e j.inputs) j came refl f in rw append-nil next
  step-Pairs ks d gathering j came f =
      let next = submit-Pairs ks d (gather j.inputs) j came refl f in rw append-nil next

  steps-Pairs :
      (ks : List Dtype) (d : Dtype) (xs : List (Event V)) (j : Join V) (came : List (TypedData V))
      → Pairs ks d j came
      → Pairs ks d (steps xs j) (came ++ accepted d xs j)
  unfolding steps
  steps-Pairs ks d [] j came f = rw append-nil f
  steps-Pairs ks d (x ∷ xs) j came f =
      let rest =
        steps-Pairs ks d xs (step x j) (came ++ accepted_in d x j) (step-Pairs ks d x j came f) in
      rw (sym (append_assoc came (accepted_in d x j) (accepted d xs (step x j)))) rest

  -- A join pairs the items by their order, however the updates and the rounds of its main loop are
  -- interleaved: each submission has exactly one item of each of its data types, in one fixed order,
  -- and the items of a data type that `update` accepted are those submitted, in the order of their
  -- arrival, followed by what waits in the queue.
  pub join_pairs :
      (ds : Dtypes) (d : Dtype) (xs : List (Event V))
      → Distinct (keys (new_join {V = V} ds).inputs)
        × All
            (λ ts. dtypes_of ts ≡ keys (new_join {V = V} ds).inputs)
            (steps xs (new_join ds)).submitted
        × (accepted d xs (new_join ds)
            ≡ sent d (steps xs (new_join ds)).submitted
              ++ held_in (lookup d (steps xs (new_join ds)).inputs))
  unfolding new_join
  join_pairs ds d xs =
      let (none_yet, distinct) = queues-empty ds [] tt tt in
      let start : Pairs (keys (new_join {V = V} ds).inputs) d (new_join ds) [] = record {
        names = refl;
        distinct = distinct;
        typed = empty-typed (queues ds []) none_yet;
        complete = tt;
        in_order = sym (empty-held d (queues ds []) none_yet);
      } in
      let f = steps-Pairs _ d xs (new_join ds) [] start in (distinct, f.complete, f.in_order)
