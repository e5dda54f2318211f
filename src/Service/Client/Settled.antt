-- ===== src/Service/Client/Settled.antt =====
-- What a client learns of a twin that it waits for, from the session that initializes the twin.
-- src/digitaltwin/service/client.py and src/digitaltwin/service/session.py.
use digital_twin_framework.Prelude.{
  ℕ, zero, suc, ◌+◌, ◌*◌, ◌≤◌, ◌<◌, Text, codes, List, [], ◌∷◌, Option, none, some, Dict, lookup,
  Result, ok, raise, runtime_error, ◌==◌, nat_eq, list_eq, find, ltb, ◌≡◌, refl, arith, ltb→lt, ◌⊎◌,
  inl, inr, Bool-cases, list_beq, ==_iff,
}
use Prim.Native.Nat.{◌/◌}
use digital_twin_framework.Service.Twin.{
  Twin, InitOutcome, unattached, connected, init_cancelled, init_timed_out, init_raised, init_twin,
  new_twin, state, set_ready, fail,
}
use digital_twin_framework.Runtime.Lifecycle.{new_life}
use digital_twin_framework.Service.Client.{
  poll_interval, Entry, summary, session_twin_list, found, twin, verdict, ended, poll, wait_ready,
}

listed :
    {J : Type 0} (i : Text) (twins : Dict Text (Twin J)) (t : Twin J)
    → lookup i twins ≡ some t
    → find (λ e. e.twin_id == i) (session_twin_list twins) ≡ some (summary i t)
unfolding lookup session_twin_list summary
listed i [] t h = cc
listed i ((j, v) ∷ twins) t h = elim (Bool-cases (j == i)) [
  | inl e ↦ let same = (==_iff j i).0 e in let twin : v ≡ t = ground arith in rw (e, same, twin)
  | inr e ↦ let rest = listed i twins t (ground arith) in rw (e, rest)
]

-- How the wait for a twin ends, by how its initialization ended.
abbrev pub settled : InitOutcome → Result Text
settled connected = ok (codes "ready")
settled _ = raise runtime_error

verdict-settled :
    (J : Type 0) (out : InitOutcome) (deadline now : ℕ) (i : Text)
    → verdict deadline now (ok (summary i (init_twin out (new_twin {J = J})).1))
      ≡ some (settled out)
unfolding verdict summary init_twin new_twin state fail set_ready new_life list_beq
verdict-settled J unattached deadline now i = refl
verdict-settled J connected deadline now i = refl
verdict-settled J init_cancelled deadline now i = refl
verdict-settled J init_timed_out deadline now i = refl
verdict-settled J (init_raised e) deadline now i = refl

young_verdict :
    (J : Type 0) (deadline now : ℕ) (i : Text)
    → now ≤ deadline
    → verdict deadline now (ok (summary i (new_twin {J = J}))) ≡ none
unfolding verdict summary init_twin new_twin state fail set_ready new_life list_beq
young_verdict J deadline now i h = ground arith

abbrev Ended : (ℕ → Result (List Entry)) → (ℕ → ℕ) → ℕ → ℕ → Text → InitOutcome → ℕ → Type 0
Ended answer latency n deadline i out now =
    (t : ℕ) × (poll answer latency n deadline i now ≡ some (settled out, t)) × (now ≤ t)

-- One round, by its verdict.
settled_round :
    (answer : ℕ → Result (List Entry)) (latency : ℕ → ℕ) (i : Text) (out : InitOutcome)
    (n deadline now : ℕ) (v : Option (Result Text))
    → verdict deadline (now + latency now) (twin i (answer now)) ≡ v
    → (v ≡ some (settled out))
      ⊎ ((v ≡ none) × Ended answer latency n deadline i out (now + latency now + poll_interval))
    → Ended answer latency (suc n) deadline i out now
unfolding poll ended
settled_round answer latency i out n deadline now v h (inl e) =
    (now + latency now, rw (h, e), omega arith)
settled_round answer latency i out n deadline now v h (inr (e, rest)) =
    (rest.0, rw (h, e, rest.1), let later = rest.2 in omega arith)

-- A session that lists a twin, whose initialization comes to an end at some time.
module _ (J : Type 0) (answer : ℕ → Result (List Entry)) (twins : ℕ → Dict Text (Twin J)) where
  abbrev pub Serves : Text → InitOutcome → ℕ → Type 0
  Serves i out since =
      ((k : ℕ) → answer k ≡ ok (session_twin_list (twins k)))
      × ((k : ℕ) → k < since → lookup i (twins k) ≡ some new_twin)
      × ((k : ℕ) → since ≤ k → lookup i (twins k) ≡ some (init_twin out new_twin).1)

  judged :
      (i : Text) (deadline now k : ℕ) (t : Twin J) (v : Option (Result Text))
      → answer k ≡ ok (session_twin_list (twins k))
      → lookup i (twins k) ≡ some t
      → verdict deadline now (ok (summary i t)) ≡ v
      → verdict deadline now (twin i (answer k)) ≡ v
  unfolding twin found
  judged i deadline now k t v h e j = let entry = listed i (twins k) t e in rw (h, entry, j)

  poll_settles :
      (latency : ℕ → ℕ) (bound : ℕ) (i : Text) (out : InitOutcome) (since deadline n now : ℕ)
      → Serves i out since
      → ((k : ℕ) → latency k ≤ bound)
      → since + bound ≤ deadline
      → deadline < now + poll_interval * n
      → Ended answer latency (suc n) deadline i out now
  poll_settles latency bound i out since deadline zero now s l d h =
      settled_round answer latency i out zero deadline now (some (settled out))
        (judged i deadline (now + latency now) now (init_twin out new_twin).1 _ (s.0 now)
          (s.2 now (omega arith)) (verdict-settled J out deadline (now + latency now) i))
        (inl refl)
  poll_settles latency bound i out since deadline (suc n) now s l d h =
      elim (Bool-cases (ltb now since)) [
        | inl e ↦
            let early = ltb→lt now since e in
            let short = l now in
            settled_round answer latency i out (suc n) deadline now none
              (judged i deadline (now + latency now) now new_twin none (s.0 now) (s.1 now early)
                (young_verdict J deadline (now + latency now) i (omega arith)))
              (inr (
                refl,
                poll_settles latency bound i out since deadline n
                    (now + latency now + poll_interval) s l d (omega arith),
              ))
        | inr e ↦
            settled_round answer latency i out (suc n) deadline now (some (settled out))
              (judged i deadline (now + latency now) now (init_twin out new_twin).1 _ (s.0 now)
                (s.2 now (ground arith)) (verdict-settled J out deadline (now + latency now) i))
              (inl refl)
      ]

  -- Waiting for a twin whose initialization ends by the time limit less one request comes to an end
  -- without a timeout: with `ready` if the initialization succeeded, and with a `RuntimeError`
  -- otherwise. The session lists the twin all the time, and a request takes at most the bound.
  pub wait_ready_settles :
      (latency : ℕ → ℕ) (bound : ℕ) (i : Text) (out : InitOutcome) (since timeout now : ℕ)
      → Serves i out since
      → ((k : ℕ) → latency k ≤ bound)
      → since + bound ≤ now + timeout
      → (t : ℕ) × (wait_ready answer latency i timeout now ≡ some (settled out, t)) × (now ≤ t)
  unfolding wait_ready
  wait_ready_settles latency bound i out since timeout now s l d =
      poll_settles latency bound i out since (now + timeout) (suc (timeout / poll_interval)) now s l
        d (omega arith)
