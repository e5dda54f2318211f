-- ===== src/Lru/Freeze.antt =====
-- Cache keys: `freeze` and `freeze_args` of src/digitaltwin/lru.py. A frozen set is kept as the
-- list of its elements in the order of iteration.
pub mod Comparing
use digital_twin_framework.Prelude.{
  ℕ, Bool, true, false, ◌&&◌, Result, ok, raise, is_ok, type_error, ◌>>=◌, ◌≡◌, refl, arith,
}

-- Python objects as `freeze` sees them: `atom` is an object that `hash` takes, `opaque` one that
-- it refuses; a mapping is its items. A set and a frozen set are handled alike.
mutual
  pub data Value : Type 0 where
    atom opaque : ℕ → Value
    list tuple set : Values → Value
    mapping : Items → Value

  pub data Values : Type 0 where
    nil : Values
    cons : Value → Values → Values

  pub data Items : Type 0 where
    empty : Items
    item : Value → Value → Items → Items

mutual
  pub data Frozen : Type 0 where
    atom : ℕ → Frozen
    tuple frozenset : Frozens → Frozen

  pub data Frozens : Type 0 where
    nil : Frozens
    cons : Frozen → Frozens → Frozens

abbrev pub pair : Frozen → Frozen → Frozen
pair a b = Frozen.tuple (Frozens.cons a (Frozens.cons b Frozens.nil))

unfoldable mutual
  pub freeze : Value → Result Frozen
  freeze (atom n) = ok (Frozen.atom n)
  freeze (opaque n) = raise type_error
  freeze (list xs) = do ys ← freeze_all xs; ok (Frozen.tuple ys)
  freeze (tuple xs) = do ys ← freeze_all xs; ok (Frozen.tuple ys)
  freeze (set xs) = do ys ← freeze_all xs; ok (Frozen.frozenset ys)
  freeze (mapping kvs) = do ys ← freeze_items kvs; ok (Frozen.frozenset ys)

  pub freeze_all : Values → Result Frozens
  freeze_all Values.nil = ok Frozens.nil
  freeze_all (Values.cons x xs) = do y ← freeze x; ys ← freeze_all xs; ok (Frozens.cons y ys)

  pub freeze_items : Items → Result Frozens
  freeze_items Items.empty = ok Frozens.nil
  freeze_items (Items.item k v kvs) = do
    a ← freeze k
    b ← freeze v
    ys ← freeze_items kvs
    ok (Frozens.cons (pair a b) ys)

-- `freeze_args`, of positional and keyword arguments.
unfoldable pub freeze_args : Value → Value → Result (Frozen × Frozen)
freeze_args args kwargs = do a ← freeze args; k ← freeze kwargs; ok (a, k)

-- The frozen objects are Python objects again.
mutual
  pub thaw : Frozen → Value
  thaw (Frozen.atom n) = atom n
  thaw (Frozen.tuple xs) = tuple (thaw_all xs)
  thaw (Frozen.frozenset xs) = set (thaw_all xs)

  pub thaw_all : Frozens → Values
  thaw_all Frozens.nil = Values.nil
  thaw_all (Frozens.cons x xs) = Values.cons (thaw x) (thaw_all xs)

mutual
  unfolding freeze thaw

  freeze_thawed : (x : Frozen) → freeze (thaw x) ≡ ok x
  freeze_thawed (Frozen.atom n) = refl
  freeze_thawed (Frozen.tuple xs) = rw (freeze_all_thawed xs)
  freeze_thawed (Frozen.frozenset xs) = rw (freeze_all_thawed xs)

  freeze_all_thawed : (xs : Frozens) → freeze_all (thaw_all xs) ≡ ok xs
  freeze_all_thawed Frozens.nil = refl
  freeze_all_thawed (Frozens.cons x xs) = rw (freeze_thawed x, freeze_all_thawed xs)

-- Freezing what is frozen already returns it unchanged.
pub freeze-thaw : (x : Frozen) → freeze (thaw x) ≡ ok x
freeze-thaw x = freeze_thawed x

-- No object in it that `hash` refuses.
mutual
  pub is_hashable : Value → Bool
  is_hashable (atom n) = true
  is_hashable (opaque n) = false
  is_hashable (list xs) = are_hashable xs
  is_hashable (tuple xs) = are_hashable xs
  is_hashable (set xs) = are_hashable xs
  is_hashable (mapping kvs) = items_hashable kvs

  pub are_hashable : Values → Bool
  are_hashable Values.nil = true
  are_hashable (Values.cons x xs) = is_hashable x && are_hashable xs

  pub items_hashable : Items → Bool
  items_hashable Items.empty = true
  items_hashable (Items.item k v kvs) = is_hashable k && (is_hashable v && items_hashable kvs)

mutual
  unfolding freeze is_hashable

  returns : (v : Value) → is_ok (freeze v) ≡ is_hashable v
  returns (atom n) = refl
  returns (opaque n) = refl
  returns (list xs) = ground (arith, returns_all xs)
  returns (tuple xs) = ground (arith, returns_all xs)
  returns (set xs) = ground (arith, returns_all xs)
  returns (mapping kvs) = ground (arith, returns_items kvs)

  returns_all : (xs : Values) → is_ok (freeze_all xs) ≡ are_hashable xs
  returns_all Values.nil = refl
  returns_all (Values.cons x xs) = ground (arith, returns x, returns_all xs)

  returns_items : (kvs : Items) → is_ok (freeze_items kvs) ≡ items_hashable kvs
  returns_items Items.empty = refl
  returns_items (Items.item k v kvs) = ground (arith, returns k, returns v, returns_items kvs)

-- `freeze` returns exactly for the objects that hold nothing unhashable, however deep.
pub freeze-is_hashable : (v : Value) → is_ok (freeze v) ≡ is_hashable v
freeze-is_hashable v = returns v

-- The set of a mapping's items.
pub item_tuples : Items → Values
item_tuples Items.empty = Values.nil
item_tuples (Items.item k v kvs) =
    Values.cons (tuple (Values.cons k (Values.cons v Values.nil))) (item_tuples kvs)

freeze-item_tuples : (kvs : Items) → freeze_all (item_tuples kvs) ≡ freeze_items kvs
unfolding freeze item_tuples
freeze-item_tuples Items.empty = refl
freeze-item_tuples (Items.item k v kvs) = ground (arith, freeze-item_tuples kvs)

-- Different arguments may share a key: a list has the key of the tuple of its elements, and a
-- mapping that of the set of its items.
pub freeze_collides :
    (xs : Values) (kvs : Items)
    → (freeze (list xs) ≡ freeze (tuple xs))
      × (freeze (mapping kvs) ≡ freeze (set (item_tuples kvs)))
unfolding freeze
freeze_collides xs kvs = (refl, rw (freeze-item_tuples kvs))
