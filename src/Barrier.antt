-- ===== src/Barrier.antt =====
-- The synchronisation barrier `Barrier` of src/digitaltwin/components.py. The coroutines `put`,
-- `get` and `run` are cut at their waits: a call that cannot go on returns `waiting` and changes
-- nothing, and it is made again later, as `Condition.wait_for` does.
pub mod Invariant
pub mod Rounds
pub mod Carrying
use digital_twin_framework.Prelude.{
  ℕ, zero, suc, ◌+◌, ◌-◌, Text, Bool, true, false, not, List, [], ◌∷◌, ◌++◌, Option, none, some,
  Status, done, raised, waiting, key_error, value_error, index_error, Error, Dict, lookup, insert,
  eqb, ltb, if◌then◌else◌, get_or_else, Result, ok, raise, ◌>>=◌,
}
use digital_twin_framework.Dtype.{Dtype, window, TypedData}
use digital_twin_framework.Dtype.Equality.{dtype_has_eq}

-- The entry of a data type in the dicts of a barrier. They get their keys together, in
-- `add_dtype`, but for `previous` and `previous_retain`, which hold an empty list and `True` until
-- they are written. `version` is the version number plus one, which starts below zero.
pub record Stream (V : Type 0) : Type 0 where
  pub hard : Bool
  pub version : ℕ
  pub queue : List (TypedData V)
  pub previous : List V
  pub previous_retain : Bool

-- Where `run` stands: before the first data type was added, in the loop that acquires `_update`,
-- with the number of acquisitions left, or ended by an exception.
pub data Phase : Type 0 where
  starting : Phase
  collecting : ℕ → Phase
  failed : Error → Phase

pub record Barrier (V : Type 0) : Type 0 where
  pub name : Text
  pub is_hard_barrier : Bool
  pub streams : Dict Dtype (Stream V)
  pub global_version : ℕ
  pub update : ℕ
  pub count_hard : ℕ
  pub count_soft : ℕ
  pub set_soft : Bool
  pub phase : Phase

abbrev pub total : {V : Type 0} → Barrier V → ℕ
total b = b.count_hard + b.count_soft

-- `l[-1]`
unfoldable pub last : {V : Type 0} → List V → Option V
last [] = none
last (x ∷ []) = some x
last (x ∷ y ∷ l) = last (y ∷ l)

module _ {V : Type 0} where
  unfoldable pub new_barrier : Text → Bool → Barrier V
  new_barrier name hard = record {
    name = name;
    is_hard_barrier = hard;
    streams = [];
    global_version = 0;
    update = 0;
    count_hard = 0;
    count_soft = 0;
    set_soft = false;
    phase = starting;
  }

  -- What a data type that is added again keeps.
  kept_previous : Option (Stream V) → List V
  kept_previous none = []
  kept_previous (some s) = s.previous

  kept_retain : Option (Stream V) → Bool
  kept_retain none = true
  kept_retain (some s) = s.previous_retain

  unfoldable pub add_dtype : Dtype → Option Bool → Barrier V → Dtype × Barrier V
  unfolding kept_previous kept_retain
  add_dtype d given b =
      let hard = get_or_else given b.is_hard_barrier in
      let old = lookup d b.streams in
      (
        if hard then d else window d b.name,
        record b {
          streams =
              insert d
                (record {
                  hard = hard;
                  version = b.global_version;
                  queue = [];
                  previous = kept_previous old;
                  previous_retain = kept_retain old;
                })
                b.streams;
          count_hard = b.count_hard + (if hard then 1 else 0);
          count_soft = b.count_soft + (if hard then 0 else 1);
        },
      )

  -- The soft branch of `put`: the value is stored, and the first value of a round releases
  -- `_update` once for each soft data type.
  put_soft : TypedData V → Stream V → Barrier V → Status × Barrier V
  put_soft t s b = (
    done,
    record b {
      streams =
          insert t.dtype
            (record s {
              previous =
                  if s.previous_retain then t.content ∷ [] else s.previous ++ (t.content ∷ []);
              previous_retain = false;
            })
            b.streams;
      set_soft = true;
      update = if b.set_soft then b.update else b.update + b.count_soft;
    },
  )

  -- The hard branch: one value for each round, then wait for the next one.
  put_hard : TypedData V → Stream V → Barrier V → Status × Barrier V
  put_hard t s b =
      if ltb s.version (suc b.global_version)
      then (
        done,
        record b {
          streams =
              insert t.dtype (record s { version = s.version + 1; queue = s.queue ++ (t ∷ []) })
                b.streams;
          update = b.update + 1;
        },
      )
      else (waiting, b)

  put_kind : Bool → TypedData V → Stream V → Barrier V → Status × Barrier V
  put_kind true = put_hard
  put_kind false = put_soft

  put_stream : TypedData V → Option (Stream V) → Barrier V → Status × Barrier V
  put_stream t none b = (raised key_error, b)
  put_stream t (some s) b = put_kind s.hard t s b

  unfoldable pub put : TypedData V → Barrier V → Status × Barrier V
  unfolding put_stream put_kind put_hard put_soft
  put t b = put_stream t (lookup t.dtype b.streams) b

  -- What a queue hands out. An empty one makes `get` wait, or raise with `wait=False`.
  take_item :
      Dtype
      → Stream V
      → Bool
      → Barrier V
      → List (TypedData V)
      → Status × Option (TypedData V) × Barrier V
  take_item d s wait b [] = (if wait then waiting else raised index_error, none, b)
  take_item d s wait b (t ∷ ts) =
      (done, some t, record b { streams = insert d (record s { queue = ts }) b.streams })

  get_stream :
      Dtype → Bool → Barrier V → Option (Stream V) → Status × Option (TypedData V) × Barrier V
  get_stream d wait b none = (raised value_error, none, b)
  get_stream d wait b (some s) = take_item d s wait b s.queue

  unfoldable pub get : Dtype → Bool → Barrier V → Status × Option (TypedData V) × Barrier V
  unfolding get_stream take_item
  get d wait b = get_stream d wait b (lookup d b.streams)

module _ {V : Type 0} (sequence : List V → V) where
  -- One soft stream at the end of a round: its window goes out, and its newest value stays for the
  -- next round. Without a value, `previous[dtype][-1]` raises after the window was put.
  emit_soft : Text → Dtype → Stream V → Option V → Stream V × Result (Unit {0})
  emit_soft name d s newest =
      let out = record s {
        queue = s.queue ++ (record { dtype = window d name; content = sequence s.previous } ∷ []);
      } in
      elim newest [
        | none ↦ (out, raise index_error)
        | some v ↦ (record out { previous = v ∷ []; previous_retain = true }, ok tt)
      ]

  emit_one : Text → Dtype → Stream V → Stream V × Result (Unit {0})
  unfolding emit_soft
  emit_one name d s = if s.hard then (s, ok tt) else emit_soft name d s (last s.previous)

  -- The loop over the data types, which an exception ends.
  emit_next :
      Dtype
      → Dict Dtype (Stream V)
      → Dict Dtype (Stream V) × Result (Unit {0})
      → Stream V × Result (Unit {0})
      → Dict Dtype (Stream V) × Result (Unit {0})
  emit_next d rest (rest', r) (s', ok u) = ((d, s') ∷ rest', r)
  emit_next d rest (rest', r) (s', raise e) = ((d, s') ∷ rest, raise e)

  unfoldable pub emit : Text → Dict Dtype (Stream V) → Dict Dtype (Stream V) × Result (Unit {0})
  unfolding emit_one emit_next
  emit name [] = ([], ok tt)
  emit name ((d, s) ∷ rest) = emit_next d rest (emit name rest) (emit_one name d s)

  -- All updates are in: the soft streams go out, and the next round begins.
  finished : Barrier V → Dict Dtype (Stream V) × Result (Unit {0}) → Status × Barrier V
  finished b (streams, ok u) = (
    done,
    record b {
      streams = streams;
      set_soft = false;
      global_version = b.global_version + 1;
      phase = collecting (total b);
    },
  )
  finished b (streams, raise e) =
      (raised e, record b { streams = streams; set_soft = false; phase = failed e })

  -- `run` up to its next wait or the next turn of its loop.
  advance : Phase → Barrier V → Status × Barrier V
  unfolding finished
  advance starting b =
      if eqb (total b) 0 then (waiting, b) else (done, record b { phase = collecting (total b) })
  advance (collecting zero) b = finished b (emit b.name b.streams)
  advance (collecting (suc n)) b =
      if eqb b.update 0
      then (waiting, b)
      else (done, record b { update = b.update - 1; phase = collecting n })
  advance (failed e) b = (raised e, b)

  unfoldable pub run_step : Barrier V → Status × Barrier V
  unfolding advance
  run_step b = advance b.phase b
