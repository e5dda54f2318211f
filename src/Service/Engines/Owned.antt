-- ===== src/Service/Engines/Owned.antt =====
-- No engine of a session is lost. src/digitaltwin/service/session.py.
use digital_twin_framework.Prelude.{
  ℕ, Text, Bool, true, false, List, [], ◌∷◌, Option, none, some, Dict, lookup, erase, has, values,
  contains, nat_eq, list_eq, Result, ok, raise, ◌≡◌, refl, arith, ◌⊎◌, inl, inr, ==_iff,
  contains-append, lookup-insert, Bool-cases, eqb_iff, ◌==◌, ==_refl,
}
use digital_twin_framework.Service.Engines.{
  Phase, active, inactive, forgotten, shut_down, over, Engines, new_engines, is_active, Event,
  asking, landing, closing, step, steps, start_build, join_build, engine_with, engine, landed,
  build_ends, build_engine, close_from, close,
}
use digital_twin_framework.Service.Engines.Single.{IsSingle, step-IsSingle, new_engines-IsSingle}

abbrev is_stopping : Phase → Bool
is_stopping shut_down = true
is_stopping over = true
is_stopping _ = false

-- An engine that was created is kept or shut down, after the shutdown each is shut down, and in the
-- end none is kept.
pub record IsOwned (e : Engines) : Type 0 where
  pub kept :
      (f : ℕ)
      → contains e.created f ≡ true
      → ((n : Text) × (lookup n e.engines ≡ some f)) ⊎ (contains e.stopped f ≡ true)
  pub dead :
      is_stopping e.phase ≡ true
      → (n : Text) (f : ℕ) → lookup n e.engines ≡ some f
      → contains e.stopped f ≡ true
  pub gone : e.phase ≡ over → e.engines ≡ []

contains-values :
    (n : Text) (f : ℕ) (d : Dict Text ℕ) → lookup n d ≡ some f → contains (values d) f ≡ true
unfolding lookup
contains-values n f [] h = cc
contains-values n f ((m, g) ∷ d) h = ground (arith, contains-values n f d, eqb_iff g f)

join_build-IsOwned :
    (name : Text) (o : Option ℕ) (e : Engines) → IsOwned e → IsOwned (join_build name o e).1
unfolding join_build start_build
join_build-IsOwned name none e h = record { kept = h.kept; dead = h.dead; gone = h.gone }
join_build-IsOwned name (some task) e h = elim (Bool-cases (has task e.running)) [
  | inl r ↦ rw r h
  | inr r ↦ rw r record { kept = h.kept; dead = h.dead; gone = h.gone }
]

engine_with-IsOwned :
    (name : Text) (o : Option ℕ) (e : Engines) → IsOwned e → IsOwned (engine_with name o e).1
unfolding engine_with
engine_with-IsOwned name none e h = join_build-IsOwned name (lookup name e.engine_tasks) e h
engine_with-IsOwned name (some flow) e h = h

active_phase : (p : Phase) → is_active p ≡ true → p ≡ active
active_phase active h = refl
active_phase inactive h = cc
active_phase forgotten h = cc
active_phase shut_down h = cc
active_phase over h = cc

landed-IsOwned :
    (on : Bool) (name : Text) (task flow : ℕ) (e : Engines)
    → is_active e.phase ≡ on
    → (on ≡ true → lookup name e.engines ≡ none)
    → IsOwned e
    → IsOwned (landed on name flow (record e { running = erase task e.running }))
unfolding landed
landed-IsOwned true name task flow e p m h = record {
  kept = λ f c. elim (Bool-cases (flow == f)) [
    | inl s ↦ inl (name, rw lookup-insert ground (arith, ==_refl name, eqb_iff flow f))
    | inr s ↦ elim (h.kept f (ground arith)) [
      | inl (n, k) ↦
          inl (n, let none_yet = m refl in rw lookup-insert ground (arith, ==_iff name n))
      | inr k ↦ inr k
    ]
  ];
  dead = λ a. let on = active_phase e.phase p in absurd (ground arith);
  gone = λ a. let on = active_phase e.phase p in absurd (ground arith);
}
landed-IsOwned false name task flow e p m h = record {
  kept = λ f c. elim (Bool-cases (flow == f)) [
    | inl s ↦ inr (ground arith)
    | inr s ↦ elim (h.kept f (ground arith)) [
      | inl (n, k) ↦ inl (n, k)
      | inr k ↦ inr (ground arith)
    ]
  ];
  dead = λ a n f k. let old = h.dead a n f k in ground arith;
  gone = h.gone;
}

build_ends-IsOwned :
    (o : Option Text) (task : ℕ) (out : Result ℕ) (e : Engines)
    → lookup task e.running ≡ o
    → IsSingle e
    → IsOwned e
    → IsOwned (build_ends o task out e)
unfolding build_ends
build_ends-IsOwned none task out e t s h = h
build_ends-IsOwned (some name) task (raise x) e t s h = record {
  kept = h.kept;
  dead = h.dead;
  gone = h.gone;
}
build_ends-IsOwned (some name) task (ok flow) e t s h =
    landed-IsOwned (is_active e.phase) name task flow e refl (λ a. s.missing a task name t) h

close_from-IsOwned : (p : Phase) (e : Engines) → e.phase ≡ p → IsOwned e → IsOwned (close_from p e)
unfolding close_from lookup
close_from-IsOwned active e q h = record { kept = h.kept; dead = λ a. cc; gone = λ a. cc }
close_from-IsOwned inactive e q h = record { kept = h.kept; dead = λ a. cc; gone = λ a. cc }
close_from-IsOwned forgotten e q h = record {
  kept = λ f c. elim (h.kept f c) [
    | inl k ↦ inl k
    | inr k ↦ inr (rw (contains-append, k) ground arith)
  ];
  dead =
      λ a n f k. let listed = contains-values n f e.engines k in rw (contains-append, listed) refl;
  gone = λ a. cc;
}
close_from-IsOwned shut_down e q h = record {
  kept = λ f c. elim (h.kept f c) [ inl (n, k) ↦ inr (h.dead (rw q refl) n f k) | inr k ↦ inr k ];
  dead = λ a n f k. cc;
  gone = λ a. refl;
}
close_from-IsOwned over e q h = h

step-IsOwned : (x : Event) (e : Engines) → IsSingle e → IsOwned e → IsOwned (step x e)
unfolding step engine build_engine close
step-IsOwned (asking name) e s h = engine_with-IsOwned name (lookup name e.engines) e h
step-IsOwned (landing task out) e s h =
    build_ends-IsOwned (lookup task e.running) task out e refl s h
step-IsOwned closing e s h = close_from-IsOwned e.phase e refl h

steps-IsOwned : (xs : List Event) (e : Engines) → IsSingle e → IsOwned e → IsOwned (steps xs e)
unfolding steps
steps-IsOwned [] e s h = h
steps-IsOwned (x ∷ xs) e s h =
    steps-IsOwned xs (step x e) (step-IsSingle x e s) (step-IsOwned x e s h)

new_engines-IsOwned : IsOwned new_engines
unfolding new_engines lookup
new_engines-IsOwned = record { kept = λ f c. cc; dead = λ a n f k. cc; gone = λ a. refl }

-- Whatever happens to a session, builds that land late included: each engine that was created is kept
-- by the session or was shut down, and once `close` is over each one was shut down.
pub no_engine_leaks :
    (xs : List Event) (f : ℕ)
    → contains (steps xs new_engines).created f ≡ true
    → (((n : Text) × (lookup n (steps xs new_engines).engines ≡ some f))
        ⊎ (contains (steps xs new_engines).stopped f ≡ true))
      × ((steps xs new_engines).phase ≡ over → contains (steps xs new_engines).stopped f ≡ true)
unfolding lookup
no_engine_leaks xs f c =
    let h = steps-IsOwned xs new_engines new_engines-IsSingle new_engines-IsOwned in
    (
      h.kept f c,
      λ o. elim (h.kept f c) [
        | inl (n, k) ↦ let none_left = h.gone o in absurd (ground arith)
        | inr k ↦ k
      ],
    )
