-- ===== src/Runtime/Shared/Endings.antt =====
-- How the futures of shared subtasks end, and what that means for their callers: the end of the wrapper
-- in `RuntimeAPI.register_shared_subtask`, `return await fut`, src/digitaltwin/runtime.py. As asyncio
-- documents it, a task that is cancelled cancels the future that it awaits.
use digital_twin_framework.Prelude.{
  ℕ, Text, Option, none, some, Result, ok, raise, Eq, Dict, lookup, insert, lookup-insert, nat_eq,
  ◌==◌, ==_refl, if◌then◌else◌, ◌≡◌, refl, arith, ap, sym, subst, ◌∙◌,
}
use digital_twin_framework.Lru.{exists}
use digital_twin_framework.Lru.Laws.{touch, fetch-present}
use digital_twin_framework.Runtime.Shared.{Shared, fetch_key}
use digital_twin_framework.Runtime.Shared.Once.{lookup-touch_all}

pub data Fate (R : Type 0) : Type 0 where
  pending cancelled : Fate R
  gave : R → Fate R
  failed : Text → Fate R

-- The cache of a label, how each of its futures stands, and which future each caller awaits.
pub record Computing (K R : Type 0) : Type 0 where
  pub shared : Shared K
  pub fate : ℕ → Fate R
  pub awaits : Dict ℕ ℕ

module _ {R : Type 0} where
  -- A future that has ended stays as it is.
  settled : Fate R → Fate R → Fate R
  settled pending x = x
  settled old x = old

  unfoldable pub settle : ℕ → Fate R → (ℕ → Fate R) → ℕ → Fate R
  unfolding settled
  settle fut x fate n = if n == fut then settled (fate n) x else fate n

  fate_of : Option ℕ → (ℕ → Fate R) → Option (Fate R)
  fate_of none fate = none
  fate_of (some fut) fate = some (fate fut)

module _ {K R : Type 0} where
  -- The computation of a future ends.
  unfoldable pub end_future : ℕ → Fate R → Computing K R → Computing K R
  unfolding settle
  end_future fut x w = record w { fate = settle fut x w.fate }

  cancel_awaited : Option ℕ → Computing K R → Computing K R
  unfolding end_future
  cancel_awaited none w = w
  cancel_awaited (some fut) w = end_future fut cancelled w

  -- The task of a caller is cancelled.
  unfoldable pub cancel_caller : ℕ → Computing K R → Computing K R
  unfolding cancel_awaited
  cancel_caller c w = cancel_awaited (lookup c w.awaits) w

  -- What a caller gets, as far as its future has ended.
  unfoldable pub seen_by : ℕ → Computing K R → Option (Fate R)
  unfolding fate_of
  seen_by c w = fate_of (lookup c w.awaits) w.fate

module _ {K : Type 0} ⦃e : Eq K⦄ where
  touched : K → ℕ → Shared K → Shared K
  touched key fut s = record s { cache = record s.cache { cache = touch key fut s.cache.cache } }

  fetch_cached :
      (key : K) (fut : ℕ) (s : Shared K)
      → lookup key s.cache.cache ≡ some fut
      → fetch_key key s ≡ ok (fut, touched key fut s)
  unfolding fetch_key exists touched
  fetch_cached key fut s l = ground (arith, fetch-present key fut s.cache l)

module _ {K R : Type 0} ⦃e : Eq K⦄ where
  awaiting : ℕ → Computing K R → Result (ℕ × Shared K) → Result (Computing K R)
  awaiting c w (ok (fut, s)) = ok (record w { shared = s; awaits = insert c fut w.awaits })
  awaiting c w (raise x) = raise x

  -- `fetch_wrapper`, with its wait for the future.
  unfoldable pub call_from : ℕ → K → Computing K R → Result (Computing K R)
  unfolding awaiting
  call_from c key w = awaiting c w (fetch_key key w.shared)

  -- A caller that has joined the cached future of its key.
  joined : ℕ → K → ℕ → Computing K R → Computing K R
  unfolding touched
  joined c key fut w = record w {
    shared = touched key fut w.shared;
    awaits = insert c fut w.awaits;
  }

  call-joined :
      (c : ℕ) (key : K) (fut : ℕ) (w : Computing K R)
      → lookup key w.shared.cache.cache ≡ some fut
      → (call_from c key w ≡ ok (joined c key fut w))
        × (lookup key (joined c key fut w).shared.cache.cache ≡ some fut)
        × (lookup c (joined c key fut w).awaits ≡ some fut)
  unfolding call_from joined touched
  call-joined c key fut w l = (
    rw (fetch_cached key fut w.shared l) refl,
    ground (arith, lookup-touch_all key key fut w.shared.cache.cache, ==_refl key),
    ground (arith, lookup-insert c c fut w.awaits, ==_refl c),
  )

  -- A future that has ended, with a value, with an error or by a cancellation, is never computed again
  -- while its key is cached: a later call is given that same end, and starts nothing.
  pub ended_future_kept :
      (c : ℕ) (key : K) (fut : ℕ) (w : Computing K R)
      → lookup key w.shared.cache.cache ≡ some fut
      → (w' : Computing K R) × (call_from c key w ≡ ok w')
        × (seen_by c w' ≡ some (w.fate fut))
        × (w'.shared.started ≡ w.shared.started)
  unfolding joined touched seen_by
  ended_future_kept c key fut w l =
      let (called, still, mine) = call-joined c key fut w l in
      (joined c key fut w, called, (rw mine refl), refl)

  cancel-awaited :
      (c fut : ℕ) (w : Computing K R)
      → lookup c w.awaits ≡ some fut
      → cancel_caller c w ≡ end_future fut cancelled w
  unfolding cancel_caller
  cancel-awaited c fut w l = rw l refl

  end-pending :
      (fut : ℕ) (x : Fate R) (w : Computing K R)
      → w.fate fut ≡ pending
      → (end_future fut x w).fate fut ≡ x
  unfolding end_future settle
  end-pending fut x w p = rw (==_refl fut, p) refl

  -- Of two callers that await the computation of one key, a cancelled one cancels the other too: the
  -- second caller, and every later caller of the key while it is cached, is told that its future was
  -- cancelled, and nothing new is computed.
  pub cancelled_caller_cancels_all :
      (a b c : ℕ) (key : K) (fut : ℕ) (w : Computing K R)
      → lookup key w.shared.cache.cache ≡ some fut
      → w.fate fut ≡ pending
      → (w₁ : Computing K R) × (call_from a key w ≡ ok w₁)
        × ((w₂ : Computing K R) × (call_from b key w₁ ≡ ok w₂)
            × (seen_by b (cancel_caller a w₂) ≡ some cancelled)
            × ((w₃ : Computing K R) × (call_from c key (cancel_caller a w₂) ≡ ok w₃)
                × (seen_by c w₃ ≡ some cancelled)
                × (w₃.shared.started ≡ w.shared.started)))
  unfolding joined touched seen_by end_future
  cancelled_caller_cancels_all a b c key fut w l p =
      let w₁ = joined a key fut w in
      let w₂ = joined b key fut w₁ in
      let (call₁, l₁, a₁) = call-joined a key fut w l in
      let (call₂, l₂, b₂) = call-joined b key fut w₁ l₁ in
      let a₂ : lookup a w₂.awaits ≡ some fut =
        ground (arith, lookup-insert b a fut w₁.awaits, a₁) in
      let w' = end_future fut cancelled w₂ in
      let gone = end-pending fut cancelled w₂ p in
      let (w₃, call₃, kept, started) = ended_future_kept c key fut w' l₂ in
      let (second, later) =
        subst
          (λ v.
            (seen_by b v ≡ some cancelled)
            × ((w₃ : Computing K R) × (call_from c key v ≡ ok w₃)
                × (seen_by c w₃ ≡ some cancelled)
                × (w₃.shared.started ≡ w.shared.started)))
          (sym (cancel-awaited a fut w₂ a₂))
          (rw b₂ (ap some gone), (w₃, call₃, kept ∙ ap some gone, started)) in
      (w₁, call₁, (w₂, call₂, second, later))
