-- ===== src/Dtype.antt =====
-- Data types of the graph: `DataType`, `JoinDataType`, `WindowDataType` and `TypedData` of
-- src/digitaltwin/components.py.
pub mod Equality
use digital_twin_framework.Prelude.{
  ℕ, zero, suc, Text, codes, Bool, true, false, ◌&&◌, List, [], ◌∷◌, ◌++◌, ◌==◌, nat_eq, list_eq,
  eqb,
}

-- A data type is an object of the class or of one of its two subclasses.
mutual
  pub data Dtype : Type 0 where
    plain : Text → Dtype
    join : Dtypes → Dtype
    window : Dtype → Text → Dtype

  pub data Dtypes : Type 0 where
    nil : Dtypes
    cons : Dtype → Dtypes → Dtypes

-- The `name` that the constructors compute, which `__str__` returns. `commas` is
-- `','.join(str(d) for d in dtypes)`.
unfoldable mutual
  pub name : Dtype → Text
  name (plain n) = n
  name (join ds) = codes "JOIN[" ++ (commas ds ++ codes "]")
  name (window d n) = codes "W[" ++ (name d ++ (codes " by B-" ++ (n ++ codes "]")))

  pub commas : Dtypes → Text
  commas nil = []
  commas (cons d ds) = name d ++ more_commas ds

  pub more_commas : Dtypes → Text
  more_commas nil = []
  more_commas (cons d ds) = codes "," ++ (name d ++ more_commas ds)

abbrev pub size : Dtypes → ℕ
size nil = 0
size (cons d ds) = suc (size ds)

-- Python's `==` on data types. Each class's `__eq__` demands its own class on the other side, and
-- a subclass is asked first, so objects of two classes are never equal. Two joins are equal when
-- their names, their numbers of parts and their parts are; two windows when their data types and
-- their names are.
unfoldable mutual
  pub dtype_eq : Dtype → Dtype → Bool
  dtype_eq (plain m) (plain n) = n == m
  dtype_eq (join ds) (join es) =
      (name (join ds) == name (join es)) && ((eqb (size es) (size ds)) && dtypes_eq ds es)
  dtype_eq (window d m) (window e n) = dtype_eq d e && (name (window e n) == name (window d m))
  dtype_eq _ _ = false

  pub dtypes_eq : Dtypes → Dtypes → Bool
  dtypes_eq nil _ = true
  dtypes_eq (cons d ds) nil = false
  dtypes_eq (cons d ds) (cons e es) = dtype_eq d e && dtypes_eq ds es

-- `TypedData`: a payload with its data type. A `JoinedTypedData` and a `WindowedTypeData` are
-- typed data whose payload is a list.
pub record TypedData {ℓ} (V : Type ℓ) : Type ℓ where
  pub dtype : Dtype
  pub content : V
