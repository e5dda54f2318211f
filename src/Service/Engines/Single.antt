-- ===== src/Service/Engines/Single.antt =====
-- No engine of a session is built twice at a time.
-- src/digitaltwin/service/session.py.
use digital_twin_framework.Prelude.{
  ℕ, ◌<◌, Text, Bool, true, false, List, [], ◌∷◌, Option, none, some, Dict, lookup, erase, has,
  nat_eq, list_eq, Result, ok, raise, ◌≡◌, ◌≢◌, refl, arith, inl, inr, ==_iff, lookup-insert,
  lookup-erase, Bool-cases, eqb_iff,
}
use digital_twin_framework.Service.Engines.{
  Phase, active, inactive, forgotten, shut_down, over, Engines, new_engines, is_active, Event,
  asking, landing, closing, step, steps, start_build, join_build, engine_with, engine, landed,
  build_ends, build_engine, close_from, close,
}

-- While a session is active, a running build is the one that `_engine_tasks` names for its engine, and
-- that engine does not exist yet.
pub record IsSingle (e : Engines) : Type 0 where
  pub counted : (b : ℕ) (n : Text) → lookup b e.running ≡ some n → b < e.builds
  pub named :
      is_active e.phase ≡ true
      → (b : ℕ) (n : Text) → lookup b e.running ≡ some n
      → lookup n e.engine_tasks ≡ some b
  pub missing :
      is_active e.phase ≡ true
      → (b : ℕ) (n : Text) → lookup b e.running ≡ some n
      → lookup n e.engines ≡ none

start_build-IsSingle :
    (name : Text) (e : Engines)
    → IsSingle e
    → lookup name e.engines ≡ none
    → (is_active e.phase ≡ true → (b : ℕ) → lookup b e.running ≢ some name)
    → IsSingle (start_build name e).1
unfolding start_build lookup
start_build-IsSingle name e h m r = record {
  counted = λ b n k. let old = h.counted b n in grind arith;
  named = λ a b n k.
      let old = h.named a b n in let new = r a b in rw lookup-insert grind (arith, ==_iff name n);
  missing = λ a b n k. let old = h.missing a b n in ground (arith, eqb_iff e.builds b);
}

join_build-IsSingle :
    (name : Text) (o : Option ℕ) (e : Engines)
    → lookup name e.engine_tasks ≡ o
    → IsSingle e
    → lookup name e.engines ≡ none
    → IsSingle (join_build name o e).1
unfolding join_build
join_build-IsSingle name none e t h m =
    start_build-IsSingle name e h m (λ a b k. let same = h.named a b name k in cc)
join_build-IsSingle name (some task) e t h m = elim (Bool-cases (has task e.running)) [
  | inl r ↦ rw r h
  | inr r ↦
      let new : IsSingle (start_build name e).1 = start_build-IsSingle name e h m (λ a b k.
        let same = h.named a b name k in let alive : has b e.running ≡ true = (rw k refl) in cc) in
      rw r new
]

engine_with-IsSingle :
    (name : Text) (o : Option ℕ) (e : Engines)
    → lookup name e.engines ≡ o
    → IsSingle e
    → IsSingle (engine_with name o e).1
unfolding engine_with
engine_with-IsSingle name none e m h =
    join_build-IsSingle name (lookup name e.engine_tasks) e refl h m
engine_with-IsSingle name (some flow) e m h = h

-- A build that still runs when another one is done.
still :
    (task b : ℕ) (n : Text) (running : Dict ℕ Text)
    → lookup b (erase task running) ≡ some n
    → (lookup b running ≡ some n) × (task ≢ b)
still task b n running h =
    let kept = lookup-erase task b running in (grind arith, λ same. absurd (grind arith))

finished-IsSingle :
    (task : ℕ) (e : Engines) → IsSingle e → IsSingle (record e { running = erase task e.running })
finished-IsSingle task e h = record {
  counted = λ b n k. h.counted b n (still task b n e.running k).0;
  named = λ a b n k. h.named a b n (still task b n e.running k).0;
  missing = λ a b n k. h.missing a b n (still task b n e.running k).0;
}

landed-IsSingle :
    (on : Bool) (name : Text) (task flow : ℕ) (e : Engines)
    → is_active e.phase ≡ on
    → lookup task e.running ≡ some name
    → IsSingle e
    → IsSingle (landed on name flow (record e { running = erase task e.running }))
unfolding landed
landed-IsSingle false name task flow e p t h =
    let f = finished-IsSingle task e h in
    record { counted = f.counted; named = f.named; missing = f.missing }
landed-IsSingle true name task flow e p t h = record {
  counted = λ b n k. h.counted b n (still task b n e.running k).0;
  named = λ a b n k. h.named a b n (still task b n e.running k).0;
  missing = λ a b n k.
      let (old, other) = still task b n e.running k in
      let mine = h.named a task name t in
      let theirs = h.named a b n old in
      let gone = h.missing a b n old in rw lookup-insert grind (arith, ==_iff name n);
}

build_ends-IsSingle :
    (o : Option Text) (task : ℕ) (out : Result ℕ) (e : Engines)
    → lookup task e.running ≡ o
    → IsSingle e
    → IsSingle (build_ends o task out e)
unfolding build_ends
build_ends-IsSingle none task out e t h = h
build_ends-IsSingle (some name) task (raise x) e t h = finished-IsSingle task e h
build_ends-IsSingle (some name) task (ok flow) e t h =
    landed-IsSingle (is_active e.phase) name task flow e refl t h

close_from-IsSingle :
    (p : Phase) (e : Engines) → e.phase ≡ p → IsSingle e → IsSingle (close_from p e)
unfolding close_from
close_from-IsSingle active e q h = record {
  counted = h.counted;
  named = λ a. cc;
  missing = λ a. cc;
}
close_from-IsSingle inactive e q h = record {
  counted = h.counted;
  named = λ a. cc;
  missing = λ a. cc;
}
close_from-IsSingle forgotten e q h = record {
  counted = h.counted;
  named = λ a. cc;
  missing = λ a. cc;
}
close_from-IsSingle shut_down e q h = record {
  counted = h.counted;
  named = λ a. cc;
  missing = λ a. cc;
}
close_from-IsSingle over e q h = h

pub step-IsSingle : (x : Event) (e : Engines) → IsSingle e → IsSingle (step x e)
unfolding step engine build_engine close
step-IsSingle (asking name) e h = engine_with-IsSingle name (lookup name e.engines) e refl h
step-IsSingle (landing task out) e h = build_ends-IsSingle (lookup task e.running) task out e refl h
step-IsSingle closing e h = close_from-IsSingle e.phase e refl h

pub steps-IsSingle : (xs : List Event) (e : Engines) → IsSingle e → IsSingle (steps xs e)
unfolding steps
steps-IsSingle [] e h = h
steps-IsSingle (x ∷ xs) e h = steps-IsSingle xs (step x e) (step-IsSingle x e h)

pub new_engines-IsSingle : IsSingle new_engines
unfolding new_engines lookup
new_engines-IsSingle = record {
  counted = λ b n k. cc;
  named = λ a b n k. cc;
  missing = λ a b n k. cc;
}

-- While a session is active, no engine is built twice at a time, however many twins ask for it, and
-- none is built that exists already.
pub one_build_per_name :
    (xs : List Event) (b c : ℕ) (n : Text)
    → is_active (steps xs new_engines).phase ≡ true
    → lookup b (steps xs new_engines).running ≡ some n
    → lookup c (steps xs new_engines).running ≡ some n
    → (b ≡ c) × (lookup n (steps xs new_engines).engines ≡ none)
one_build_per_name xs b c n a h k =
    let s = steps-IsSingle xs new_engines new_engines-IsSingle in
    let mine = s.named a b n h in let theirs = s.named a c n k in (cc, s.missing a b n h)
