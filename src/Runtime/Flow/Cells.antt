-- ===== src/Runtime/Flow/Cells.antt =====
-- The barriers of a line and their consumers, and what is in them.
-- src/digitaltwin/runtime.py and src/digitaltwin/components.py.
use digital_twin_framework.Prelude.{
  ℕ, zero, suc, Bool, true, false, List, [], ◌∷◌, ◌++◌, Option, none, some, Status, done, raised,
  waiting, ◌≡◌, ◌≢◌, ◌∙◌, refl, ap, sym, inl, inr, All, append-nil, append_assoc,
}
use digital_twin_framework.Dtype.{Dtype, TypedData}
use digital_twin_framework.Barrier.{Barrier, put, get}
use digital_twin_framework.Barrier.Carrying.{
  queue_of, Typed, Carries, put_own, get_own, put_other, get_other, run-Carries,
}
use digital_twin_framework.Runtime.Flow.{
  Hand, free, holding, crashed, Cell, placed, put_held, got, pass, shift, give, update_cell, Other,
  running, putting, getting, Event, arriving, other, on_barrier, on_cell,
}

module _ {V : Type 0} where
  abbrev pub in_hand : Hand V → List (TypedData V)
  in_hand free = []
  in_hand (holding t) = t ∷ []
  in_hand (crashed e) = []

  abbrev pub is_alive : Hand V → Bool
  is_alive (crashed e) = false
  is_alive _ = true

  abbrev pub entered : List (Event V) → List (TypedData V)
  entered [] = []
  entered (arriving t ∷ xs) = t ∷ entered xs
  entered (x ∷ xs) = entered xs

  placed-done : (t : TypedData V) (p : Status × Barrier V) → p.0 ≡ done → placed t p ≡ (free, p.1)
  unfolding placed
  placed-done t (done, b) h = refl
  placed-done t (waiting, b) h = cc
  placed-done t (raised e, b) h = cc

  got-some :
      (t : TypedData V) (p : Status × Option (TypedData V) × Barrier V)
      → p.0 ≡ done
      → p.1 ≡ some t
      → got p ≡ (holding t, p.2)
  unfolding got
  got-some t (done, none, b) h k = cc
  got-some t (done, some u, b) h k = cc
  got-some t (waiting, o, b) h k = cc
  got-some t (raised e, o, b) h k = cc

module _ {V : Type 0} (d : Dtype) where
  -- What is under way, the item that comes out next first.
  unfoldable pub under_way : List (Cell V) → List (TypedData V) → List (TypedData V)
  under_way [] q = q
  under_way ((h, b) ∷ cells) q = under_way cells (queue_of d b ++ (in_hand h ++ q))

  -- A hard barrier of the data type, and a consumer that runs.
  abbrev pub IsSound : Cell V → Type 0
  IsSound (h, b) = (is_alive h ≡ true) × All (Typed d) (in_hand h) × Carries d b

  -- Whatever the other data types do is not about this one.
  abbrev pub IsForeign : Event V → Type 0
  IsForeign (other n (putting t)) = t.dtype ≢ d
  IsForeign (other n (getting e)) = e ≢ d
  IsForeign (arriving t) = t.dtype ≡ d
  IsForeign _ = Unit

  -- A change of one cell that keeps it sound and what is in it.
  abbrev pub Keeps : (Cell V → Cell V) → Type 0
  Keeps f =
      (c : Cell V)
      → IsSound c
      → IsSound (f c) × ((queue_of d (f c).1 ++ in_hand (f c).0) ≡ (queue_of d c.1 ++ in_hand c.0))

  pub update-Keeps :
      (f : Cell V → Cell V) (n : ℕ) (cells : List (Cell V)) (q : List (TypedData V))
      → Keeps f
      → All IsSound cells
      → All IsSound (update_cell n f cells)
        × (under_way (update_cell n f cells) q ≡ under_way cells q)
  unfolding update_cell under_way
  update-Keeps f n [] q k s = (s, refl)
  update-Keeps f zero ((h, b) ∷ cells) q k s =
      let (sound, same) = k (h, b) s.0 in
      (
        (sound, s.1),
        ap (under_way cells)
            (sym (append_assoc _ _ q) ∙ ap (λ z. z ++ q) same ∙ append_assoc _ _ q),
      )
  update-Keeps f (suc n) ((h, b) ∷ cells) q k s =
      let (sound, same) = update-Keeps f n cells (queue_of d b ++ (in_hand h ++ q)) k s.1 in
      ((s.0, sound), same)

  pub put_held-Keeps : Keeps put_held
  unfolding put_held placed
  put_held-Keeps (free, b) s = (s, refl)
  put_held-Keeps (crashed e, b) s = (s, refl)
  put_held-Keeps (holding t, b) s = elim (put_own d b s.2 t s.1.0) [
    | inl (x, y, z) ↦ rw (placed-done t (put t b) x) ((refl, tt, y), append-nil _ ∙ z)
    | inr w ↦ rw w (s, refl)
  ]

  pub on_cell-Keeps :
      (sequence : List V → V) (x : Other V) (n : ℕ)
      → IsForeign (other n x)
      → Keeps (on_cell sequence d x)
  unfolding on_cell on_barrier
  on_cell-Keeps sequence running n f (h, b) s =
      let (c, same) = run-Carries d b s.2 sequence in ((s.0, s.1, c), ap (λ z. z ++ in_hand h) same)
  on_cell-Keeps sequence (putting t) n f (h, b) s =
      let (c, same) = put_other d b s.2 t f in ((s.0, s.1, c), ap (λ z. z ++ in_hand h) same)
  on_cell-Keeps sequence (getting e) n f (h, b) s =
      let (c, same) = get_other d b s.2 e f in ((s.0, s.1, c), ap (λ z. z ++ in_hand h) same)

  -- A get of the data type: what it took was the front of the queue.
  fetched :
      (b : Barrier V)
      → Carries d b
      → IsSound (got (get d true b))
        × (queue_of d b ≡ in_hand (got (get d true b)).0 ++ queue_of d (got (get d true b)).1)
  unfolding got
  fetched b c = elim (get_own d b c) [
    | inl (t, x, y, z, w, e) ↦ rw (got-some t (get d true b) x y) ((refl, (e, tt), z), w)
    | inr w ↦ rw w ((refl, tt, c), refl)
  ]

  pub shift_keeps :
      (n : ℕ) (cells : List (Cell V)) (q : List (TypedData V))
      → All IsSound cells
      → All IsSound (shift d n cells) × (under_way (shift d n cells) q ≡ under_way cells q)
  unfolding shift pass under_way
  shift_keeps zero [] q s = (tt, refl)
  shift_keeps (suc n) [] q s = (tt, refl)
  shift_keeps zero ((h, b) ∷ []) q s = (s, refl)
  shift_keeps zero ((h, b) ∷ (free, c) ∷ rest) q s =
      let ((alive, typed, carries), same) = fetched b s.0.2 in
      (((s.0.0, s.0.1, carries), ((alive, typed, s.1.0.2), s.1.1)), rw (same, append_assoc) refl)
  shift_keeps zero ((h, b) ∷ (holding t, c) ∷ rest) q s = (s, refl)
  shift_keeps zero ((h, b) ∷ (crashed e, c) ∷ rest) q s = (s, refl)
  shift_keeps (suc n) ((h, b) ∷ cells) q s =
      let (sound, same) = shift_keeps n cells (queue_of d b ++ (in_hand h ++ q)) s.1 in
      ((s.0, sound), same)

  pub give_keeps :
      (cells : List (Cell V)) (q : List (TypedData V))
      → All IsSound cells
      → (is_alive (give d cells).0 ≡ true)
        × All IsSound (give d cells).1
        × (under_way cells q ≡ in_hand (give d cells).0 ++ under_way (give d cells).1 q)
  unfolding give under_way
  give_keeps [] q s = (refl, tt, refl)
  give_keeps ((h, b) ∷ []) q s =
      let ((alive, typed, carries), same) = fetched b s.0.2 in
      (alive, ((s.0.0, s.0.1, carries), tt), rw (same, append_assoc) refl)
  give_keeps ((h, b) ∷ c ∷ cells) q s =
      let (alive, sound, same) = give_keeps (c ∷ cells) (queue_of d b ++ (in_hand h ++ q)) s.1 in
      (alive, (s.0, sound), same)
