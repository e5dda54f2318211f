-- ===== src/Stream/Address.antt =====
-- Addresses of the stream broker, src/digitaltwin/config.py. The environment is a parameter: what
-- `os.environ.get` gives for each of the two variables.
use digital_twin_framework.Prelude.{
  Text, codes, Option, none, some, [], ◌∷◌, ◌++◌, ◌≡◌, refl, arith, ◌⊎◌, inl, inr, starts_with,
  true, false, ◌≢◌,
}

abbrev pub default_bind_host : Text
default_bind_host = codes "127.0.0.1"

abbrev pub default_pub_addr : Text
default_pub_addr = codes "tcp://" ++ (default_bind_host ++ codes ":5000")

abbrev pub default_sub_addr : Text
default_sub_addr = codes "tcp://" ++ (default_bind_host ++ codes ":5001")

abbrev pub random_addr : Text
random_addr = codes "tcp://" ++ (default_bind_host ++ codes ":*")

-- Python's `a or b` where `a` is `None` or a text: an empty text counts as missing.
abbrev pub text_or : Option Text → Text → Text
text_or none b = b
text_or (some []) b = b
text_or (some (c ∷ cs)) b = c ∷ cs

pub record Environment : Type 0 where
  pub pub_addr : Option Text
  pub sub_addr : Option Text

unfoldable pub stream_addresses : Environment → Option Text → Option Text → Text × Text
stream_addresses env pub_addr sub_addr = (
  text_or pub_addr (text_or env.pub_addr default_pub_addr),
  text_or sub_addr (text_or env.sub_addr default_sub_addr),
)

unfoldable pub embedded_stream_addresses : Environment → Text × Text
embedded_stream_addresses env = (text_or env.pub_addr random_addr, text_or env.sub_addr random_addr)

abbrev unconfigured : Environment
unconfigured = record { pub_addr = none; sub_addr = none }

abbrev pub loopback : Text
loopback = codes "tcp://127.0.0.1:"

-- An address that is not on loopback was given: as the argument, or in the environment.
text_or_given :
    (given configured : Option Text) (default : Text)
    → starts_with default loopback ≡ true
    → starts_with (text_or given (text_or configured default)) loopback ≡ false
    → (given ≡ some (text_or given (text_or configured default)))
      ⊎ (configured ≡ some (text_or given (text_or configured default)))
text_or_given (some (c ∷ cs)) configured default h k = inl refl
text_or_given none (some (c ∷ cs)) default h k = inr refl
text_or_given (some []) (some (c ∷ cs)) default h k = inr refl
text_or_given none none default h k = ground arith
text_or_given none (some []) default h k = ground arith
text_or_given (some []) none default h k = ground arith
text_or_given (some []) (some []) default h k = ground arith

-- The binding policy: each address that `stream_addresses` resolves and that is not on loopback is
-- the explicit argument or the value of its environment variable.
pub stream_addresses_policy :
    (env : Environment) (p s : Option Text)
    → (starts_with (stream_addresses env p s).0 loopback ≡ false
        → (p ≡ some (stream_addresses env p s).0)
          ⊎ (env.pub_addr ≡ some (stream_addresses env p s).0))
      × (starts_with (stream_addresses env p s).1 loopback ≡ false
          → (s ≡ some (stream_addresses env p s).1)
            ⊎ (env.sub_addr ≡ some (stream_addresses env p s).1))
unfolding stream_addresses starts_with
stream_addresses_policy env p s = (
  text_or_given p env.pub_addr default_pub_addr refl,
  text_or_given s env.sub_addr default_sub_addr refl,
)

-- The same of the addresses that the service's embedded broker binds.
pub embedded_stream_addresses_policy :
    (env : Environment)
    → (starts_with (embedded_stream_addresses env).0 loopback ≡ false
        → env.pub_addr ≡ some (embedded_stream_addresses env).0)
      × (starts_with (embedded_stream_addresses env).1 loopback ≡ false
          → env.sub_addr ≡ some (embedded_stream_addresses env).1)
unfolding embedded_stream_addresses starts_with
embedded_stream_addresses_policy env = (
  λ h. ground (arith, text_or_given none env.pub_addr random_addr refl h),
  λ h. ground (arith, text_or_given none env.sub_addr random_addr refl h),
)

-- A text that is not empty counts.
pub text_or-full : (p d : Text) → p ≢ [] → text_or (some p) d ≡ p
text_or-full [] d h = absurd (h refl)
text_or-full (c ∷ p) d h = refl
