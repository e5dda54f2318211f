-- ===== src/Runtime/Flow/Lossless.antt =====
-- Nothing that enters a line of hard barriers is lost, repeated or overtaken.
-- src/digitaltwin/runtime.py and src/digitaltwin/components.py.
use digital_twin_framework.Prelude.{
  true, List, [], ◌∷◌, ◌++◌, Option, none, some, Error, ◌≡◌, ◌∙◌, refl, ap, sym, All, All-append,
  append-nil, append_assoc,
}
use digital_twin_framework.Dtype.{Dtype, TypedData}
use digital_twin_framework.Barrier.{Barrier}
use digital_twin_framework.Barrier.Carrying.{queue_of, Typed, Carries}
use digital_twin_framework.Runtime.Flow.{
  Hand, free, holding, crashed, Cell, Line, put_held, take_first, take_from, give, hand_on, Event,
  arriving, taking, handing, placing, passing, other, on_cell, step, steps, chain_of, new_line,
  hand_over,
}
use digital_twin_framework.Runtime.Flow.Cells.{
  in_hand, is_alive, under_way, IsSound, IsForeign, entered, update-Keeps, put_held-Keeps,
  on_cell-Keeps, shift_keeps, give_keeps,
}

module _ {V : Type 0} (d : Dtype) where
  -- A line of hard barriers into which some items came.
  pub record Flows (l : Line V) (came : List (TypedData V)) : Type 0 where
    pub sound : All (IsSound d) l.cells
    pub typed : All (Typed d) l.queue
    pub alive : l.ended ≡ none
    pub lossless : came ≡ l.delivered ++ under_way d l.cells l.queue

  take_first-Flows :
      (t : TypedData V) (ts : List (TypedData V)) (cells : List (Cell V)) (l : Line V)
      (came : List (TypedData V))
      → l.queue ≡ t ∷ ts
      → l.cells ≡ cells
      → Flows l came
      → Flows (take_first t ts cells l) came
  unfolding take_first under_way
  take_first-Flows t ts [] l came e c f = record {
    sound = f.sound;
    typed = (rw e at f.typed).1;
    alive = f.alive;
    lossless = rw c (rw (e, c) at f.lossless ∙ sym (append_assoc l.delivered (t ∷ []) ts));
  }
  take_first-Flows t ts ((free, b) ∷ cells) l came e c f =
      let typed = rw e at f.typed in
      let sound = rw c at f.sound in
      record {
        sound = ((sound.0.0, (typed.0, tt), sound.0.2), sound.1);
        typed = typed.1;
        alive = f.alive;
        lossless = rw (e, c) at f.lossless;
      }
  take_first-Flows t ts ((holding u, b) ∷ cells) l came e c f = f
  take_first-Flows t ts ((crashed x, b) ∷ cells) l came e c f = f

  take_from-Flows :
      (q : List (TypedData V)) (l : Line V) (came : List (TypedData V))
      → l.queue ≡ q
      → Flows l came
      → Flows (take_from q l) came
  unfolding take_from
  take_from-Flows [] l came e f = f
  take_from-Flows (t ∷ ts) l came e f = take_first-Flows t ts l.cells l came e refl f

  hand_on-Flows :
      (r : Hand V × List (Cell V)) (l : Line V) (came : List (TypedData V))
      → Flows l came
      → is_alive r.0 ≡ true
      → All (IsSound d) r.1
      → under_way d l.cells l.queue ≡ in_hand r.0 ++ under_way d r.1 l.queue
      → Flows (hand_on r l) came
  unfolding hand_on
  hand_on-Flows (free, cells) l came f a s e = record {
    sound = s;
    typed = f.typed;
    alive = f.alive;
    lossless = rw e at f.lossless;
  }
  hand_on-Flows (holding t, cells) l came f a s e = record {
    sound = s;
    typed = f.typed;
    alive = f.alive;
    lossless = (rw e at f.lossless) ∙ sym (append_assoc l.delivered (t ∷ []) _);
  }
  hand_on-Flows (crashed x, cells) l came f a s e = cc

  hand_over-Flows :
      (sequence : List V → V) (o : Option Error) (l : Line V) (came : List (TypedData V))
      → o ≡ none
      → Flows l came
      → Flows (hand_over sequence d o l) came
  unfolding hand_over
  hand_over-Flows sequence none l came e f =
      let (alive, sound, same) = give_keeps d l.cells l.queue f.sound in
      hand_on-Flows (give d l.cells) l came f alive sound same
  hand_over-Flows sequence (some x) l came e f = cc

  -- A change of the chain that keeps it sound and what is under way.
  cells-Flows :
      (l : Line V) (cells : List (Cell V)) (came : List (TypedData V))
      → Flows l came
      → All (IsSound d) cells × (under_way d cells l.queue ≡ under_way d l.cells l.queue)
      → Flows (record l { cells = cells }) came
  cells-Flows l cells came f (s, e) = record {
    sound = s;
    typed = f.typed;
    alive = f.alive;
    lossless = f.lossless ∙ ap (λ z. l.delivered ++ z) (sym e);
  }

  under_way-append :
      (cells : List (Cell V)) (q r : List (TypedData V))
      → under_way d cells (q ++ r) ≡ under_way d cells q ++ r
  unfolding under_way
  under_way-append [] q r = refl
  under_way-append ((h, b) ∷ cells) q r =
      ap (under_way d cells) (
        ap (λ z. queue_of d b ++ z) (sym (append_assoc (in_hand h) q r))
        ∙ sym (append_assoc (queue_of d b) (in_hand h ++ q) r))
      ∙ under_way-append cells (queue_of d b ++ (in_hand h ++ q)) r

  step-Flows :
      (sequence : List V → V) (x : Event V) (l : Line V) (came : List (TypedData V))
      → IsForeign d x
      → Flows l came
      → Flows (step sequence d x l) (came ++ entered (x ∷ []))
  unfolding step
  step-Flows sequence (arriving t) l came k f = record {
    sound = f.sound;
    typed = All-append (Typed d) l.queue (t ∷ []) f.typed (k, tt);
    alive = f.alive;
    lossless =
        ap (λ z. z ++ (t ∷ [])) f.lossless
        ∙ append_assoc l.delivered (under_way d l.cells l.queue) (t ∷ [])
        ∙ ap (λ z. l.delivered ++ z) (sym (under_way-append l.cells l.queue (t ∷ [])));
  }
  step-Flows sequence taking l came k f =
      let next = take_from-Flows l.queue l came refl f in rw append-nil next
  step-Flows sequence handing l came k f =
      let next = hand_over-Flows sequence l.ended l came f.alive f in rw append-nil next
  step-Flows sequence (placing n) l came k f =
      let kept = update-Keeps d put_held n l.cells l.queue (put_held-Keeps d) f.sound in
      let next = cells-Flows l _ came f kept in rw append-nil next
  step-Flows sequence (passing n) l came k f =
      let next = cells-Flows l _ came f (shift_keeps d n l.cells l.queue f.sound) in
      rw append-nil next
  step-Flows sequence (other n x) l came k f =
      let kept =
        update-Keeps d (on_cell sequence d x) n l.cells l.queue (on_cell-Keeps d sequence x n k)
          f.sound in
      let next = cells-Flows l _ came f kept in rw append-nil next

  entered-cons :
      (x : Event V) (xs : List (Event V)) → entered (x ∷ xs) ≡ entered (x ∷ []) ++ entered xs
  entered-cons (arriving t) xs = refl
  entered-cons taking xs = refl
  entered-cons handing xs = refl
  entered-cons (placing n) xs = refl
  entered-cons (passing n) xs = refl
  entered-cons (other n y) xs = refl

  steps-Flows :
      (sequence : List V → V) (xs : List (Event V)) (l : Line V) (came : List (TypedData V))
      → All (IsForeign d) xs
      → Flows l came
      → Flows (steps sequence d xs l) (came ++ entered xs)
  unfolding steps
  steps-Flows sequence [] l came k f = rw append-nil f
  steps-Flows sequence (x ∷ xs) l came k f =
      let rest =
        steps-Flows sequence xs (step sequence d x l) (came ++ entered (x ∷ [])) k.1
          (step-Flows sequence x l came k.0 f) in
      rw (entered-cons x xs, sym (append_assoc came (entered (x ∷ [])) (entered xs))) rest

  -- A hard barrier of the data type that holds nothing of it.
  abbrev pub IsEmpty : Barrier V → Type 0
  IsEmpty b = Carries d b × (queue_of d b ≡ [])

  chain_sound :
      (bs : List (Barrier V))
      → All IsEmpty bs
      → All (IsSound d) (chain_of bs) × (under_way d (chain_of bs) [] ≡ [])
  unfolding chain_of under_way
  chain_sound [] h = (tt, refl)
  chain_sound (b ∷ bs) h =
      let (sound, none_yet) = chain_sound bs h.1 in
      (((refl, tt, h.0.0), sound), ap (λ z. under_way d (chain_of bs) (z ++ [])) h.0.1 ∙ none_yet)

  -- A line is a first-in first-out queue. Whatever the consumers, the barriers and the other data
  -- types do, in any order: what entered the queue of a data type that is hard in every barrier of its
  -- chain is what was delivered to the components, in that order, followed by what is under way; and
  -- no barrier has ended the last consumer. At first the barriers hold nothing of the data type.
  pub line_lossless :
      (sequence : List V → V) (bs : List (Barrier V)) (xs : List (Event V))
      → All IsEmpty bs
      → All (IsForeign d) xs
      → (entered xs
          ≡ (steps sequence d xs (new_line bs)).delivered
            ++ under_way d
                (steps sequence d xs (new_line bs)).cells
                (steps sequence d xs (new_line bs)).queue)
        × ((steps sequence d xs (new_line bs)).ended ≡ none)
  unfolding new_line
  line_lossless sequence bs xs h k =
      let (sound, none_yet) = chain_sound bs h in
      let start : Flows (new_line bs) [] = record {
        sound = sound;
        typed = tt;
        alive = refl;
        lossless = sym none_yet;
      } in
      let f = steps-Flows sequence xs (new_line bs) [] k start in (f.lossless, f.alive)
