-- ===== src/Stream/Topic.antt =====
-- Topic names: `PubSubClient.__init__`'s namespace check, `topic` and `check_channel` of
-- src/digitaltwin/streaming.py.
use digital_twin_framework.Prelude.{
  ℕ, Text, codes, Bool, true, false, ◌||◌, nat_eq, list_eq, [], ◌∷◌, ◌++◌, contains, Result, ok,
  value_error, ◌>>◌, raise_if, ◌≡◌, ◌≢◌, refl, ap, arith, starts_with, starts_with-append,
  append-cancel_left, append_assoc, contains-append, snoc-injective,
}
use digital_twin_framework.Dtype.{Dtype, name}

abbrev pub topic_terminator : ℕ
topic_terminator = 0

abbrev pub topic_prefix : Text
topic_prefix = codes "dt/"

-- `not text`
abbrev pub is_empty : Text → Bool
is_empty [] = true
is_empty (c ∷ cs) = false

-- The test of the constructor: a namespace is not empty and holds no separator and no terminator.
unfoldable pub check_namespace : Text → Result (Unit {0})
check_namespace ns =
    raise_if (is_empty ns || contains ns b'/' || contains ns topic_terminator) value_error

unfoldable pub topic : Text → Dtype → Text
topic ns d = topic_prefix ++ (ns ++ (codes "/dtypes/" ++ (name d ++ (topic_terminator ∷ []))))

unfoldable pub check_channel : Text → Result (Unit {0})
check_channel channel = do
  raise_if (is_empty channel) value_error
  raise_if (starts_with channel topic_prefix) value_error
  raise_if (contains channel topic_terminator) value_error

-- What the checks accept.
pub check_namespace-slash : (ns : Text) → check_namespace ns ≡ ok tt → contains ns b'/' ≡ false
unfolding check_namespace
check_namespace-slash ns h = ground arith

-- Two texts with no slash, each followed by one, agree in both parts.
split_at_slash :
    (a b s t : Text)
    → contains a b'/' ≡ false
    → contains b b'/' ≡ false
    → a ++ (b'/' ∷ s) ≡ b ++ (b'/' ∷ t)
    → (a ≡ b) × (s ≡ t)
split_at_slash [] [] s t ha hb h = (refl, cc)
split_at_slash [] (d ∷ b) s t ha hb h = ground arith
split_at_slash (c ∷ a) [] s t ha hb h = ground arith
split_at_slash (c ∷ a) (d ∷ b) s t ha hb h =
    let (p, q) = split_at_slash a b s t (ground arith) (ground arith) (cc) in (cc, q)

-- Topics of twins with valid namespaces agree only for the same namespace and the same name of
-- the data type.
pub topic-injective :
    (m n : Text) (d e : Dtype)
    → check_namespace m ≡ ok tt
    → check_namespace n ≡ ok tt
    → topic m d ≡ topic n e
    → (m ≡ n) × (name d ≡ name e)
unfolding topic
topic-injective m n d e hm hn h =
    let (p, q) =
      split_at_slash m n _ _ (check_namespace-slash m hm) (check_namespace-slash n hn)
        (append-cancel_left topic_prefix _ _ h) in
    (p, snoc-injective _ _ _ _ (append-cancel_left (codes "dtypes/") _ _ q))

-- No channel that `check_channel` accepts is a topic of any twin's internal traffic.
pub topic-ne-channel :
    (ns : Text) (d : Dtype) (channel : Text) → check_channel channel ≡ ok tt → topic ns d ≢ channel
unfolding topic check_channel starts_with
topic-ne-channel ns d channel h e =
    let w =
      starts_with-append topic_prefix
        (ns ++ (codes "/dtypes/" ++ (name d ++ (topic_terminator ∷ [])))) in
    ground (arith, ap (λ (t : Text). starts_with t topic_prefix) e)

-- A text ended by the only terminator in it is a prefix of no other such text.
terminated_prefix :
    (a b : Text)
    → contains a topic_terminator ≡ false
    → contains b topic_terminator ≡ false
    → starts_with (a ++ (topic_terminator ∷ [])) (b ++ (topic_terminator ∷ [])) ≡ true
    → a ≡ b
unfolding starts_with
terminated_prefix [] [] ha hb h = refl
terminated_prefix [] (c ∷ b) ha hb h = ground arith
terminated_prefix (c ∷ a) [] ha hb h = ground arith
terminated_prefix (c ∷ a) (d ∷ b) ha hb h =
    let t : a ≡ b = terminated_prefix a b (ground arith) (ground arith) (ground arith) in
    ground arith

-- A topic without its terminator.
label : Text → Dtype → Text
label ns d = topic_prefix ++ (ns ++ (codes "/dtypes/" ++ name d))

topic-label : (ns : Text) (d : Dtype) → topic ns d ≡ label ns d ++ (topic_terminator ∷ [])
unfolding topic label
topic-label ns d = simp append_assoc

label_has_no_terminator :
    (ns : Text) (d : Dtype)
    → check_namespace ns ≡ ok tt
    → contains (name d) topic_terminator ≡ false
    → contains (label ns d) topic_terminator ≡ false
unfolding label check_namespace
label_has_no_terminator ns d h k =
    ground (arith, contains-append ns (codes "/dtypes/" ++ name d) topic_terminator)

-- The transport matches subscriptions by prefix. Among twins with valid namespaces and data types
-- whose names hold no terminator, a topic that starts with another topic is that topic.
pub topic-prefix_free :
    (m n : Text) (d e : Dtype)
    → check_namespace m ≡ ok tt
    → check_namespace n ≡ ok tt
    → contains (name d) topic_terminator ≡ false
    → contains (name e) topic_terminator ≡ false
    → starts_with (topic m d) (topic n e) ≡ true
    → topic m d ≡ topic n e
topic-prefix_free m n d e hm hn hd he h =
    let same =
      terminated_prefix (label m d) (label n e) (label_has_no_terminator m d hm hd)
        (label_has_no_terminator n e hn he) (rw (topic-label m d, topic-label n e) at h) in
    rw (topic-label m d, topic-label n e, same)
