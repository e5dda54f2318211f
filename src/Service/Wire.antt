-- ===== src/Service/Wire.antt =====
-- The version check and the size check on payloads, src/digitaltwin/service/wire.py.
-- `cloudpickle` with base64 is a parameter.
pub mod Compatible
use digital_twin_framework.Prelude.{
  ℕ, ◌+◌, ◌-◌, ◌≤◌, ◌<◌, Text, codes, Bool, true, List, [], ◌∷◌, Option, none, some, Result, ok,
  raise, value_error, ◌>>◌, raise_if, ◌==◌, nat_eq, list_eq, Dict, lookup, length, ltb,
  if◌then◌else◌, ◌≡◌, ◌↔◌, refl, arith, ==_iff, not, Bool-cases, inl, inr, >>-eq-ok, ==_refl, ◌∙◌,
  ap, contains, false, ◌++◌, All, sym,
}

abbrev pub envelope_margin : ℕ
envelope_margin = 65536

-- `MAX_PAYLOAD`, for a frame cap that the host or the default of 4 MiB gives.
unfoldable pub max_payload : ℕ → ℕ
max_payload frame_cap = frame_cap - envelope_margin

-- `text.split(".")`, the part up to the first dot and the others.
unfoldable pub split_dots : Text → Text × List Text
split_dots [] = ([], [])
split_dots (c ∷ cs) =
    let rest = split_dots cs in if c == b'.' then ([], rest.0 ∷ rest.1) else (c ∷ rest.0, rest.1)

-- `split(".")[:2]`
first_two : Text × List Text → List Text
first_two (a, []) = a ∷ []
first_two (a, (b ∷ rest)) = a ∷ b ∷ []

unfoldable pub minor : Text → List Text
unfolding first_two split_dots
minor version = first_two (split_dots version)

-- `version_stamp`, of the two interpreters' versions and of this package.
pub record Versions : Type 0 where
  pub python : Text
  pub cloudpickle : Text
  pub digitaltwin : Text

-- One round of the loop of `check_versions`: a missing and a skewed version are refused.
compared : (Text → Text → Bool) → Text → Option Text → Result (Unit {0})
compared agree mine none = raise value_error
compared agree mine (some yours) = raise_if (not (agree yours mine)) value_error

unfoldable pub check_version :
    (Text → Text → Bool) → Text → Text → Dict Text Text → Result (Unit {0})
unfolding compared
check_version agree key mine stamp = compared agree mine (lookup key stamp)

abbrev pub same_minor : Text → Text → Bool
same_minor yours mine = minor yours == minor mine

abbrev pub same_text : Text → Text → Bool
same_text yours mine = yours == mine

-- A missing stamp is an empty one.
unfoldable pub check_versions : Versions → Dict Text Text → Result (Unit {0})
unfolding check_version
check_versions mine stamp = do
  check_version same_minor (codes "python") mine.python stamp
  check_version same_minor (codes "cloudpickle") mine.cloudpickle stamp
  check_version same_text (codes "digitaltwin") mine.digitaltwin stamp

module _ {A : Type 0} where
  -- `encode_checked`, over an encoder.
  unfoldable pub encode_checked : ℕ → (A → Text) → A → Result Text
  unfolding max_payload
  encode_checked frame_cap encode obj =
      if ltb (max_payload frame_cap) (length (encode obj))
      then raise value_error
      else ok (encode obj)

  -- For a frame with room for the margin, `encode_checked` gives a text exactly if it is the encoding
  -- of the object and fits the frame together with the margin, to the byte; and it gives none exactly
  -- if the encoding does not fit, and then it raises `ValueError`.
  pub encode_checked_exact :
      (frame_cap : ℕ) (encode : A → Text) (obj : A) (blob : Text)
      → envelope_margin ≤ frame_cap
      → ((encode_checked frame_cap encode obj ≡ ok blob)
          ↔ ((encode obj ≡ blob) × (length blob + envelope_margin ≤ frame_cap)))
        × ((encode_checked frame_cap encode obj ≡ raise value_error)
            ↔ (frame_cap < length (encode obj) + envelope_margin))
  unfolding encode_checked max_payload
  encode_checked_exact frame_cap encode obj blob room =
      elim (Bool-cases (ltb (max_payload frame_cap) (length (encode obj)))) [
        | inl e ↦ ((λ h. ground arith, λ h. ground arith), (λ h. ground arith, λ h. ground arith))
        | inr e ↦ ((λ h. ground arith, λ h. ground arith), (λ h. ground arith, λ h. ground arith))
      ]
