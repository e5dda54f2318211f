-- ===== src/Service/Wire/Compatible.antt =====
-- Which versions of a client the service takes. src/digitaltwin/service/wire.py.
use digital_twin_framework.Prelude.{
  ℕ, Text, codes, Bool, true, List, [], ◌∷◌, Option, none, some, ok, ◌==◌, nat_eq, list_eq, Dict,
  lookup, ◌≡◌, ◌↔◌, refl, arith, ==_iff, Bool-cases, inl, inr, >>-eq-ok, ==_refl, ◌∙◌, ap, contains,
  false, ◌++◌, All, sym,
}
use digital_twin_framework.Service.Wire.{
  Versions, split_dots, first_two, minor, compared, check_version, same_minor, same_text,
  check_versions,
}

-- A version as a person reads it: its numbers with dots between them.
abbrev pub joined : Text → List Text → Text
joined a [] = a
joined a (b ∷ bs) = a ++ (b'.' ∷ joined b bs)

abbrev pub NoDot : Text → Type 0
NoDot t = contains t b'.' ≡ false

-- Two versions that start with the same number and have the same second one, if there is one.
abbrev second : List Text → Option Text
second [] = none
second (b ∷ bs) = some b

pub record AgreeInMinor (v w : Text) : Type 0 where
  pub number : Text
  pub rest_v : List Text
  pub rest_w : List Text
  pub reads_v : v ≡ joined number rest_v
  pub reads_w : w ≡ joined number rest_w
  pub no_dots : NoDot number × All NoDot rest_v × All NoDot rest_w
  pub same_second : second rest_v ≡ second rest_w

split-NoDot : (a : Text) → NoDot a → split_dots a ≡ (a, [])
unfolding split_dots
split-NoDot [] h = refl
split-NoDot (c ∷ cs) h = ground (arith, split-NoDot cs)

split-dot :
    (a t : Text) → NoDot a → split_dots (a ++ (b'.' ∷ t)) ≡ (a, (split_dots t).0 ∷ (split_dots t).1)
unfolding split_dots
split-dot [] t h = refl
split-dot (c ∷ cs) t h = ground (arith, split-dot cs t)

split-joined :
    (a : Text) (bs : List Text) → NoDot a → All NoDot bs → split_dots (joined a bs) ≡ (a, bs)
split-joined a [] h hs = split-NoDot a h
split-joined a (b ∷ bs) h hs =
    ground (arith, split-dot a (joined b bs) h, split-joined b bs hs.0 hs.1)

joined-cons : (c : ℕ) (a : Text) (bs : List Text) → joined (c ∷ a) bs ≡ c ∷ joined a bs
joined-cons c a [] = refl
joined-cons c a (b ∷ bs) = refl

joined-split :
    (t : Text)
    → (joined (split_dots t).0 (split_dots t).1 ≡ t)
      × NoDot (split_dots t).0
      × All NoDot (split_dots t).1
unfolding split_dots
joined-split [] = (refl, refl, tt)
joined-split (c ∷ cs) =
    let (back, first, others) = joined-split cs in
    let (a, bs) = split_dots cs in
    elim (Bool-cases (c == b'.')) [
      | inl h ↦ ground (arith, back, first, others, ==_iff c b'.')
      | inr h ↦
          ground (arith, back, first, others, joined-cons c (split_dots cs).0 (split_dots cs).1)
    ]

first_two_iff :
    (a b : Text) (xs ys : List Text)
    → (first_two (a, xs) ≡ first_two (b, ys)) ↔ ((a ≡ b) × (second xs ≡ second ys))
unfolding first_two
first_two_iff a b [] [] = (λ h. ground arith, λ h. ground arith)
first_two_iff a b [] (y ∷ ys) = (λ h. ground arith, λ h. ground arith)
first_two_iff a b (x ∷ xs) [] = (λ h. ground arith, λ h. ground arith)
first_two_iff a b (x ∷ xs) (y ∷ ys) = (λ h. ground arith, λ h. ground arith)

pub minor_iff : (v w : Text) → (minor v ≡ minor w) ↔ AgreeInMinor v w
unfolding minor
minor_iff v w = (there, back)
  where
    there : minor v ≡ minor w → AgreeInMinor v w
    there h =
        let (number, second) =
          (first_two_iff (split_dots v).0 (split_dots w).0 (split_dots v).1 (split_dots w).1).0 h in
        let (x, p, q) = joined-split v in
        let (y, r, t) = joined-split w in
        record {
          number = (split_dots v).0;
          rest_v = (split_dots v).1;
          rest_w = (split_dots w).1;
          reads_v = sym x;
          reads_w = rw number (sym y);
          no_dots = (p, q, t);
          same_second = second;
        }

    back : AgreeInMinor v w → minor v ≡ minor w
    back h =
        let a = ap split_dots h.reads_v ∙ split-joined h.number h.rest_v h.no_dots.0 h.no_dots.1 in
        let b = ap split_dots h.reads_w ∙ split-joined h.number h.rest_w h.no_dots.0 h.no_dots.2 in
        ap first_two a
        ∙ ((first_two_iff h.number h.number h.rest_v h.rest_w).1 (refl, h.same_second)
            ∙ sym (ap first_two b))

-- The client's version under a key, when the service takes it.
compared_exact :
    (agree : Text → Text → Bool) (mine : Text) (o : Option Text)
    → (compared agree mine o ≡ ok tt) ↔ ((v : Text) × (o ≡ some v) × (agree v mine ≡ true))
unfolding compared
compared_exact agree mine none = (λ h. cc, λ h. cc)
compared_exact agree mine (some yours) = (λ h. (yours, refl, ground arith), λ h. ground (arith))

module _ (mine : Versions) (stamp : Dict Text Text) where
  -- What a client must have reported for its payloads to be unpickled.
  pub record IsCompatible : Type 0 where
    pub python : (v : Text) × (lookup (codes "python") stamp ≡ some v) × AgreeInMinor v mine.python
    pub cloudpickle :
        (v : Text) × (lookup (codes "cloudpickle") stamp ≡ some v) × AgreeInMinor v mine.cloudpickle
    pub digitaltwin : lookup (codes "digitaltwin") stamp ≡ some mine.digitaltwin

  version_ok :
      (agree : Text → Text → Bool) (key m : Text)
      → (check_version agree key m stamp ≡ ok tt)
        ↔ ((v : Text) × (lookup key stamp ≡ some v) × (agree v m ≡ true))
  unfolding check_version
  version_ok agree key m = compared_exact agree m (lookup key stamp)

  accepted : check_versions mine stamp ≡ ok tt → IsCompatible
  unfolding check_versions
  accepted h =
      let a = >>-eq-ok (check_version same_minor (codes "python") mine.python stamp) _ h in
      let b =
        >>-eq-ok (check_version same_minor (codes "cloudpickle") mine.cloudpickle stamp) _ a.1 in
      let p = (version_ok same_minor (codes "python") mine.python).0 a.0 in
      let c = (version_ok same_minor (codes "cloudpickle") mine.cloudpickle).0 b.0 in
      let d = (version_ok same_text (codes "digitaltwin") mine.digitaltwin).0 b.1 in
      record {
        python = (
          p.0,
          p.1,
          (minor_iff p.0 mine.python).0 ((==_iff (minor p.0) (minor mine.python)).0 p.2),
        );
        cloudpickle = (
          c.0,
          c.1,
          (minor_iff c.0 mine.cloudpickle).0 ((==_iff (minor c.0) (minor mine.cloudpickle)).0 c.2),
        );
        digitaltwin = d.1 ∙ ap some ((==_iff d.0 mine.digitaltwin).0 d.2);
      }

  compatible : IsCompatible → check_versions mine stamp ≡ ok tt
  unfolding check_versions
  compatible h =
      let p = h.python in
      let c = h.cloudpickle in
      let a = (version_ok same_minor (codes "python") mine.python).1 (
        p.0,
        p.1,
        (==_iff (minor p.0) (minor mine.python)).1 ((minor_iff p.0 mine.python).1 p.2),
      ) in
      let b = (version_ok same_minor (codes "cloudpickle") mine.cloudpickle).1 (
        c.0,
        c.1,
        (==_iff (minor c.0) (minor mine.cloudpickle)).1 ((minor_iff c.0 mine.cloudpickle).1 c.2),
      ) in
      let d =
        (version_ok same_text (codes "digitaltwin") mine.digitaltwin).1
          (mine.digitaltwin, h.digitaltwin, ==_refl mine.digitaltwin) in
      rw (a, b, d)

  -- The version check lets a payload through exactly if the client reported all three versions, its
  -- Python and its cloudpickle start with the service's first number and have its
  -- second number, or both have none, and its
  -- `digitaltwin` is the very same version.
  pub check_versions_exact : (check_versions mine stamp ≡ ok tt) ↔ IsCompatible
  check_versions_exact = (accepted, compatible)
