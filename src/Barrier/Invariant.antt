-- ===== src/Barrier/Invariant.antt =====
-- The bookkeeping of `Barrier` of src/digitaltwin/components.py: the permits of `_update`, the
-- versions of its streams and the main loop's count.
pub mod Steps
pub mod Tally
use digital_twin_framework.Prelude.{
  ℕ, zero, suc, ◌+◌, ◌-◌, ◌≤◌, Text, Bool, true, false, not, ◌&&◌, ◌||◌, List, [], ◌∷◌, ◌++◌,
  Option, none, some, Status, done, raised, waiting, key_error, value_error, index_error, Error,
  Dict, lookup, insert, eqb, ltb, if◌then◌else◌, get_or_else, Result, ok, raise, is_ok, ◌≡◌, refl,
  ap, arith, Bool-cases, inl, inr, Option-cases, tests, ◌∙◌, ◌<◌, subst, eqb_ne,
}
use digital_twin_framework.Dtype.{Dtype, window, TypedData}
use digital_twin_framework.Dtype.Equality.{dtype_has_eq}
use digital_twin_framework.Barrier.{
  Stream, Phase, starting, collecting, failed, Barrier, total, put_stream, put_kind, put_hard,
  put_soft, put, take_item, get_stream, get, emit, finished, advance, run_step,
}
use Tally.{
  tally, each, tally-insert, tally-insert_absent, each-insert, each-lookup, tally-le, each_of_tally,
  emit-tally, emit-each,
}

abbrev pub is_hard : Bool → ℕ → Bool
is_hard h v = h

abbrev pub is_soft : Bool → ℕ → Bool
is_soft h v = not h

-- A hard stream at the round's version, or one that delivered in this round.
abbrev pub in_step : ℕ → Bool → ℕ → Bool
in_step g h v = if h then eqb v g || eqb v (suc g) else true

abbrev pub arrived : ℕ → Bool → ℕ → Bool
arrived g h v = h && eqb v (suc g)

abbrev pub released : {V : Type 0} → Barrier V → ℕ
released b = if b.set_soft then b.count_soft else 0

-- How many permits `run` has taken in this round, and how many are to be had.
abbrev pub Balanced : {V : Type 0} → Phase → Barrier V → Type 0
Balanced starting b = b.update ≡ tally (arrived b.global_version) b.streams + released b
Balanced (collecting n) b =
    (n ≤ total b)
    × (b.update + (total b - n) ≡ tally (arrived b.global_version) b.streams + released b)
Balanced (failed e) b = Unit

pub record Sync {V : Type 0} (b : Barrier V) : Type 0 where
  pub hard_counted : tally is_hard b.streams ≡ b.count_hard
  pub soft_counted : tally is_soft b.streams ≡ b.count_soft
  pub steps : each (in_step b.global_version) b.streams ≡ true
  pub balanced : Balanced b.phase b

module _ {V : Type 0} (b : Barrier V) (k : Dtype) (s s' : Stream V) where
  -- A change of one stream that leaves its hardness alone.
  same_kind :
      (P : Bool → ℕ → Bool)
      → lookup k b.streams ≡ some s
      → P s'.hard s'.version ≡ P s.hard s.version
      → tally P (insert k s' b.streams) ≡ tally P b.streams
  same_kind P h e = ground (arith, tally-insert P k s' b.streams s h)

  one_more :
      (P : Bool → ℕ → Bool)
      → lookup k b.streams ≡ some s
      → P s'.hard s'.version ≡ true
      → P s.hard s.version ≡ false
      → tally P (insert k s' b.streams) ≡ tally P b.streams + 1
  one_more P h e f = ground (arith, tally-insert P k s' b.streams s h)

-- What a barrier owes in this round.
abbrev owed : {V : Type 0} → Barrier V → ℕ
owed b = tally (arrived b.global_version) b.streams + released b

-- Permits and dues that change together leave the balance.
Balanced-shift :
    {V : Type 0} (p : Phase) (b b' : Barrier V)
    → total b' ≡ total b
    → b'.update + owed b ≡ b.update + owed b'
    → Balanced p b
    → Balanced p b'
Balanced-shift starting b b' e u h = omega arith
Balanced-shift (collecting n) b b' e u h = omega arith
Balanced-shift (failed x) b b' e u h = tt

module _ {V : Type 0} (b : Barrier V) (t : TypedData V) (s : Stream V) (h : Sync b)
    (found : lookup t.dtype b.streams ≡ some s) where
  put_hard-Sync : s.hard ≡ true → Sync (put_hard t s b).1
  unfolding put_hard
  put_hard-Sync hard = elim (Bool-cases (ltb s.version (suc b.global_version))) [
    | inl late ↦ rw (late, put_hard) (delivered (omega (tests, late)))
    | inr early ↦ rw (early, put_hard) h
  ]
    where
      s' : Stream V
      s' = record s { version = s.version + 1; queue = s.queue ++ (t ∷ []) }

      b' : Barrier V
      b' = record b { streams = insert t.dtype s' b.streams; update = b.update + 1 }

      at_round : in_step b.global_version s.hard s.version ≡ true
      at_round = each-lookup (in_step b.global_version) t.dtype b.streams s h.steps found

      now :
          s.version < suc b.global_version → arrived b.global_version s.hard (s.version + 1) ≡ true
      now late = ground (arith, at_round)

      before : s.version < suc b.global_version → arrived b.global_version s.hard s.version ≡ false
      before late = ground (arith, at_round)

      delivered : s.version < suc b.global_version → Sync b'
      delivered late = record {
        hard_counted = same_kind b t.dtype s s' is_hard found refl ∙ h.hard_counted;
        soft_counted = same_kind b t.dtype s s' is_soft found refl ∙ h.soft_counted;
        steps =
            each-insert (in_step b.global_version) t.dtype s' b.streams h.steps
              (ground (arith, now late));
        balanced =
            Balanced-shift b.phase b b' refl
              (omega (
                arith,
                one_more b t.dtype s s' (arrived b.global_version) found (now late) (before late),
              ))
              h.balanced;
      }

  put_soft-Sync : s.hard ≡ false → Sync (put_soft t s b).1
  unfolding put_soft
  put_soft-Sync soft = record {
    hard_counted = same_kind b t.dtype s s' is_hard found refl ∙ h.hard_counted;
    soft_counted = same_kind b t.dtype s s' is_soft found refl ∙ h.soft_counted;
    steps = each-insert (in_step b.global_version) t.dtype s' b.streams h.steps (ground arith);
    balanced =
        Balanced-shift b.phase b (put_soft t s b).1 refl
          (ground (arith, same_kind b t.dtype s s' (arrived b.global_version) found refl))
          h.balanced;
  }
    where
      s' : Stream V
      s' = record s {
        previous = if s.previous_retain then t.content ∷ [] else s.previous ++ (t.content ∷ []);
        previous_retain = false;
      }

  put_kind-Sync : (x : Bool) → s.hard ≡ x → Sync (put_kind x t s b).1
  unfolding put_kind
  put_kind-Sync true p = put_hard-Sync p
  put_kind-Sync false p = put_soft-Sync p

-- A `put`, whether it returns, raises or waits, keeps the bookkeeping.
pub put-Sync : {V : Type 0} (t : TypedData V) (b : Barrier V) → Sync b → Sync (put t b).1
unfolding put
put-Sync {V} t b h = go (lookup t.dtype b.streams) refl
  where
    go : (o : Option (Stream V)) → lookup t.dtype b.streams ≡ o → Sync (put_stream t o b).1
    go none e = h
    go (some s) e = put_kind-Sync b t s h e s.hard refl
