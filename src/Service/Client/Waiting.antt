-- ===== src/Service/Client/Waiting.antt =====
-- How long a client waits for a twin, and what it learns. src/digitaltwin/service/client.py.
use digital_twin_framework.Prelude.{
  ℕ, zero, suc, ◌+◌, ◌*◌, ◌≤◌, ◌<◌, Text, List, Option, none, some, Result, ok, raise, nat_eq,
  list_eq, ◌≡◌, refl, arith, tests,
}
use Prim.Native.Nat.{◌/◌}
use digital_twin_framework.Service.Client.{
  poll_interval, Entry, twin, verdict, ended, poll, wait_ready,
}

-- Only a round within the time goes on.
pub verdict-none :
    (deadline now : ℕ) (r : Result Entry) → verdict deadline now r ≡ none → now ≤ deadline
unfolding verdict
verdict-none deadline now (raise x) h = cc
verdict-none deadline now (ok e) h = grind tests

module _ (answer : ℕ → Result (List Entry)) (latency : ℕ → ℕ) where
  abbrev End : Text → ℕ → ℕ → ℕ → Type 0
  End i deadline bound n =
      (now : ℕ)
      → deadline < now + poll_interval * n
      → now ≤ deadline + poll_interval
      → (r : Result Text) × (t : ℕ) × (poll answer latency (suc n) deadline i now ≡ some (r, t))
        × (t ≤ deadline + poll_interval + bound)

  -- One round, by its verdict.
  round_ends :
      (i : Text) (deadline bound n now : ℕ) (v : Option (Result Text))
      → verdict deadline (now + latency now) (twin i (answer now)) ≡ v
      → ((k : ℕ) → latency k ≤ bound)
      → now ≤ deadline + poll_interval
      → (v ≡ none
          → (r : Result Text) × (t : ℕ) × (poll answer latency n deadline i
                (now + latency now + poll_interval)
              ≡ some (r, t))
            × (t ≤ deadline + poll_interval + bound))
      → (r : Result Text) × (t : ℕ) × (poll answer latency (suc n) deadline i now ≡ some (r, t))
        × (t ≤ deadline + poll_interval + bound)
  unfolding poll ended
  round_ends i deadline bound n now (some r) h l p k =
      (r, now + latency now, rw h, omega (arith, l now))
  round_ends i deadline bound n now none h l p k = let e = k refl in (e.0, e.1, rw (h, e.2), e.3)

  poll_ends :
      (i : Text) (deadline bound n : ℕ) → ((k : ℕ) → latency k ≤ bound) → End i deadline bound n
  poll_ends i deadline bound zero l now d p =
      round_ends i deadline bound zero now
        (verdict deadline (now + latency now) (twin i (answer now))) refl l p
        (λ h. absurd (
          let q = verdict-none deadline (now + latency now) (twin i (answer now)) h in omega arith))
  poll_ends i deadline bound (suc n) l now d p =
      round_ends i deadline bound (suc n) now
        (verdict deadline (now + latency now) (twin i (answer now))) refl l p
        (λ h.
          let q = verdict-none deadline (now + latency now) (twin i (answer now)) h in
          poll_ends i deadline bound n l (now + latency now + poll_interval) (omega arith)
            (omega arith))

  -- `wait_ready` comes to an end, whatever the service answers: with a state or an exception, and at
  -- most one poll interval and one request after its time limit, if no request takes longer than a
  -- bound.
  pub wait_ready_ends :
      (bound : ℕ) (i : Text) (timeout now : ℕ)
      → ((k : ℕ) → latency k ≤ bound)
      → (r : Result Text) × (t : ℕ) × (wait_ready answer latency i timeout now ≡ some (r, t))
        × (t ≤ now + timeout + poll_interval + bound)
  unfolding wait_ready
  wait_ready_ends bound i timeout now l =
      poll_ends i (now + timeout) bound (suc (timeout / poll_interval)) l now (omega arith)
        (omega arith)
