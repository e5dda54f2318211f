-- ===== src/Stream/Codec.antt =====
-- Payload codecs of external channels, `_CODECS`, `check_codec`, `encode_payload` and
-- `decode_payload` of src/digitaltwin/streaming.py.
use digital_twin_framework.Prelude.{
  Text, codes, false, ◌==◌, nat_eq, list_eq, List, [], ◌∷◌, contains, Result, ok, raise,
  value_error, ◌>>◌, raise_if, not, ◌≡◌, arith, ==_iff, if◌then◌else◌,
}

abbrev pub codec_json : Text
codec_json = codes "json"

abbrev pub codec_raw : Text
codec_raw = codes "raw"

abbrev pub codec_cloudpickle : Text
codec_cloudpickle = codes "cloudpickle"

abbrev pub known_codecs : List Text
known_codecs = codec_json ∷ codec_raw ∷ codec_cloudpickle ∷ []

unfoldable pub check_codec : Text → Result (Unit {0})
check_codec codec = raise_if (not (contains known_codecs codec)) value_error

-- What the program takes from `json`, `cloudpickle` and `bytes`: an encoder and a decoder each,
-- which may raise. `M` is the type of messages, `P` that of payload bytes.
pub record Coders (M P : Type 0) : Type 0 where
  pub json_dumps : M → Result P
  pub json_loads : P → Result M
  pub pickle_dumps : M → Result P
  pub pickle_loads : P → Result M
  pub to_bytes : M → Result P
  pub of_bytes : P → M

module _ {M P : Type 0} (lib : Coders M P) where
  -- The encoder and the decoder that `_CODECS` holds for a name; a missing key is a `KeyError`,
  -- which `check_codec` keeps from being reached.
  unfoldable pub encode_payload : M → Text → Result P
  unfolding check_codec
  encode_payload m codec = do
    check_codec codec
    if codec == codec_json
        then lib.json_dumps m
        else if codec == codec_raw
        then lib.to_bytes m
        else lib.pickle_dumps m

  unfoldable pub decode_payload : P → Text → Result M
  unfolding check_codec
  decode_payload p codec = do
    check_codec codec
    if codec == codec_json
        then lib.json_loads p
        else if codec == codec_raw
        then ok (lib.of_bytes p)
        else lib.pickle_loads p

  -- What a codec must do with a message for the receiver to get it: json gives back what has no tuple
  -- and no key but a text, `bytes` gives back bytes, and cloudpickle gives back values.
  abbrev pub IsKept : Text → M → Type 0
  IsKept codec m =
      (p : P)
      → (codec ≡ codec_json → lib.json_dumps m ≡ ok p → lib.json_loads p ≡ ok m)
        × (codec ≡ codec_raw → lib.to_bytes m ≡ ok p → lib.of_bytes p ≡ m)
        × (codec ≡ codec_cloudpickle → lib.pickle_dumps m ≡ ok p → lib.pickle_loads p ≡ ok m)

  -- The message that a codec encodes is decoded by the same codec, if the library behind that codec
  -- keeps this message.
  pub decode-encode_payload :
      (m : M) (codec : Text) (p : P)
      → IsKept codec m
      → encode_payload m codec ≡ ok p
      → decode_payload p codec ≡ ok m
  unfolding encode_payload decode_payload check_codec
  decode-encode_payload m codec p kept h =
      let k = kept p in
      grind (
        arith,
        k.0,
        k.1,
        k.2,
        ==_iff codec codec_json,
        ==_iff codec codec_raw,
        ==_iff codec codec_cloudpickle,
        ==_iff codec_json codec,
        ==_iff codec_raw codec,
        ==_iff codec_cloudpickle codec,
      )

  -- An unknown codec is refused on both sides.
  pub unknown_codec_refused :
      (codec : Text)
      → contains known_codecs codec ≡ false
      → (m : M) (p : P)
      → (encode_payload m codec ≡ raise value_error) × (decode_payload p codec ≡ raise value_error)
  unfolding encode_payload decode_payload
  unknown_codec_refused codec h m p = ground arith
