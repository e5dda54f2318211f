-- ===== src/Barrier/Rounds.antt =====
-- Rounds of a `Barrier`, src/digitaltwin/components.py: steps, their sequences and the end of a round.
pub mod Starving
use digital_twin_framework.Prelude.{
  ℕ, zero, suc, ◌+◌, ◌-◌, ◌≤◌, ◌<◌, Text, Bool, true, false, not, ◌&&◌, ◌||◌, List, [], ◌∷◌, ◌++◌,
  Option, none, some, Status, done, raised, waiting, key_error, value_error, index_error, Error,
  Dict, lookup, insert, eqb, eqb_ne, ltb, if◌then◌else◌, get_or_else, Result, ok, raise, is_ok, ◌≡◌,
  refl, ap, arith, Bool-cases, inl, inr, subst, sym, ◌∙◌, is_some,
}
use digital_twin_framework.Dtype.{Dtype, window, TypedData}
use digital_twin_framework.Dtype.Equality.{dtype_has_eq}
use digital_twin_framework.Barrier.{
  Stream, Phase, starting, collecting, failed, Barrier, total, new_barrier, add_dtype,
  kept_previous, kept_retain, put, get, emit, emit_one, emit_soft, emit_next, finished, advance,
  run_step, last,
}
use digital_twin_framework.Barrier.Invariant.{
  Sync, in_step, is_hard, is_soft, arrived, released, Balanced, put-Sync,
}
use digital_twin_framework.Barrier.Invariant.Steps.{
  delivered_at, get-Sync, run_step-Sync, all_arrived, all_delivered,
}
use digital_twin_framework.Barrier.Invariant.Tally.{tally, each, tally-insert_absent, each-insert}

module _ {V : Type 0} where
  -- A barrier before any value: data types may be added.
  pub record IsFresh (b : Barrier V) : Type 0 where
    pub sync : Sync b
    pub idle : b.phase ≡ starting
    pub silent : b.set_soft ≡ false

  pub new_barrier-IsFresh : (name : Text) (hard : Bool) → IsFresh (new_barrier {V = V} name hard)
  unfolding new_barrier tally each
  new_barrier-IsFresh name hard = record {
    sync = record {
      hard_counted = refl;
      soft_counted = refl;
      steps = refl;
      balanced = omega arith;
    };
    idle = refl;
    silent = refl;
  }

  -- Adding a data type that is not there yet.
  pub add_dtype-IsFresh :
      (d : Dtype) (given : Option Bool) (b : Barrier V)
      → lookup d b.streams ≡ none
      → IsFresh b
      → IsFresh (add_dtype d given b).1
  unfolding add_dtype
  add_dtype-IsFresh d given b e h = record {
    sync = record {
      hard_counted =
          ground (arith, tally-insert_absent is_hard d s' b.streams e, h.sync.hard_counted);
      soft_counted =
          ground (arith, tally-insert_absent is_soft d s' b.streams e, h.sync.soft_counted);
      steps = each-insert (in_step b.global_version) d s' b.streams h.sync.steps (ground arith);
      balanced =
          subst (λ q. Balanced q (add_dtype d given b).1) (sym h.idle)
            (ground (
              arith,
              tally-insert_absent (arrived b.global_version) d s' b.streams e,
              subst (λ q. Balanced q b) h.idle h.sync.balanced,
              h.silent,
            ));
    };
    idle = h.idle;
    silent = h.silent;
  }
    where
      s' : Stream V
      s' = record {
        hard = get_or_else given b.is_hard_barrier;
        version = b.global_version;
        queue = [];
        previous = kept_previous (lookup d b.streams);
        previous_retain = kept_retain (lookup d b.streams);
      }

tally_of_each :
    {V : Type 0} (g : ℕ) (l : Dict Dtype (Stream V))
    → each (delivered_at g) l ≡ true
    → tally (arrived g) l ≡ tally is_hard l
unfolding tally each
tally_of_each g [] h = refl
tally_of_each g ((d, s) ∷ l) h = ground (arith, tally_of_each g l)

-- What may happen to a barrier whose data types have been added.
pub data Step {V : Type 0} (sequence : List V → V) (b : Barrier V) : Barrier V → Type 0 where
  putting : (t : TypedData V) → Step sequence b (put t b).1
  getting : (d : Dtype) (wait : Bool) → Step sequence b (get d wait b).2
  running : Step sequence b (run_step sequence b).1

pub data Reach {V : Type 0} (sequence : List V → V) (b : Barrier V) : Barrier V → Type 0 where
  here : Reach sequence b b
  next : {c e : Barrier V} → Reach sequence b c → Step sequence c e → Reach sequence b e

module _ {V : Type 0} (sequence : List V → V) where
  Step-Sync : {b c : Barrier V} → Step sequence b c → Sync b → Sync c
  Step-Sync {b} (putting t) h = put-Sync t b h
  Step-Sync {b} (getting d wait) h = get-Sync d wait b h
  Step-Sync {b} running h = run_step-Sync sequence b h

  -- However puts, gets and the main loop interleave from a fresh barrier on, its permits are those of the hard
  -- streams that delivered in this round and of the soft streams if one of them did, and each hard
  -- stream is at the round's version or one past it.
  pub Reach-Sync : {b c : Barrier V} → IsFresh b → Reach sequence b c → Sync c
  Reach-Sync f here = f.sync
  Reach-Sync f (next r st) = Step-Sync st (Reach-Sync f r)

  -- From a fresh barrier on, the main loop ends a round only when every hard stream has delivered exactly one value in it,
  -- when some soft stream has if there is one, and when no permit is left over for the next round.
  pub round_complete :
      {b c : Barrier V}
      → IsFresh b
      → Reach sequence b c
      → c.phase ≡ collecting 0
      → (each (delivered_at c.global_version) c.streams ≡ true)
        × (0 < c.count_soft → c.set_soft ≡ true)
        × (c.update ≡ 0)
  round_complete {b} {c} f r e =
      let s = Reach-Sync f r in
      let (none_left, hards, softs) = all_arrived c s e in
      (all_delivered c.global_version c.streams hards, λ p. ground arith, none_left)

  -- `n` steps of the main loop.
  unfoldable pub run_steps : ℕ → Barrier V → Barrier V
  run_steps zero b = b
  run_steps (suc n) b = run_steps n (run_step sequence b).1

  take_permit :
      (b : Barrier V) (n : ℕ)
      → b.phase ≡ collecting (suc n)
      → 0 < b.update
      → (run_step sequence b).1 ≡ record b { update = b.update - 1; phase = collecting n }
  unfolding run_step
  take_permit b n e p = rw e (ground arith)

  permit_left :
      (b : Barrier V) (n : ℕ)
      → Sync b
      → b.phase ≡ collecting (suc n)
      → each (delivered_at b.global_version) b.streams ≡ true
      → (0 < b.count_soft → b.set_soft ≡ true)
      → 0 < b.update
  permit_left b n h e d s =
      let now : Balanced (collecting (suc n)) b = subst (λ q. Balanced q b) e h.balanced in
      ground (arith, now, tally_of_each b.global_version b.streams d, h.hard_counted)

  -- The main loop does not hang on a round whose values are in: if the bookkeeping is in step, the
  -- loop still wants `n` permits, every hard stream has delivered, and some soft stream has if there
  -- is one, then `n` steps of the loop take it to the end of the round.
  pub round_ends :
      (n : ℕ) (b : Barrier V)
      → Sync b
      → b.phase ≡ collecting n
      → each (delivered_at b.global_version) b.streams ≡ true
      → (0 < b.count_soft → b.set_soft ≡ true)
      → (run_steps n b).phase ≡ collecting 0
  unfolding run_steps
  round_ends zero b h e d s = e
  round_ends (suc n) b h e d s =
      let step = take_permit b n e (permit_left b n h e d s) in
      subst (λ (x : Barrier V). (run_steps n x).phase ≡ collecting 0) (sym step)
        (round_ends n (record b { update = b.update - 1; phase = collecting n })
          (subst Sync step (run_step-Sync sequence b h)) refl d s)
