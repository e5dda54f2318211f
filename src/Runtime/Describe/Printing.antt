-- ===== src/Runtime/Describe/Printing.antt =====
-- The rendering of a description as text, `print_graph` of src/digitaltwin/runtime.py.
use digital_twin_framework.Prelude.{
  ℕ, Text, codes, Bool, true, false, List, [], ◌∷◌, ◌++◌, Dict, lookup, insert, lookup-insert, keys,
  keys-insert-Distinct, Distinct, get_or_else, nat_eq, list_eq, ◌==◌, ==_iff, filter, if◌then◌else◌,
  append_assoc, append-nil, ◌≡◌, refl, arith, ap, sym, ◌∙◌,
}
use digital_twin_framework.Runtime.Lifecycle.{State, ready, running, stopped, failed}
use digital_twin_framework.Runtime.Describe.{Entry, Description}

-- One step of the grouping: `by_input[entry["input_dtype"]].append(entry)`.
abbrev pub grouped : Dict Text (List Entry) → Entry → Dict Text (List Entry)
grouped m e = insert e.input_dtype (get_or_else (lookup e.input_dtype m) [] ++ (e ∷ [])) m

unfoldable pub group : List Entry → Dict Text (List Entry) → Dict Text (List Entry)
group [] m = m
group (e ∷ es) m = group es (grouped m e)

abbrev pub by_input : List Entry → Dict Text (List Entry)
by_input es = group es []

abbrev pub state_text : State → Text
state_text ready = codes "ready"
state_text running = codes "running"
state_text stopped = codes "stopped"
state_text failed = codes "failed"

abbrev bool_text : Bool → Text
bool_text true = codes "True"
bool_text false = codes "False"

-- A tabulator, and the end of a line.
abbrev tab : Text
tab = 9 ∷ []

abbrev newline : ℕ
newline = 10

abbrev rule : Text
rule = codes "=============================="

split_lines : List Text → List Text
split_lines [] = []
split_lines (o ∷ os) = (tab ++ (tab ++ o)) ∷ split_lines os

-- The lines of a component.
unfoldable pub entry_lines : Entry → List Text
unfolding split_lines
entry_lines e =
    if e.is_join
    then (tab ++ e.output_dtype) ∷ []
    else if e.is_split
    then (tab ++ (codes "SPLIT: " ++ e.component)) ∷ split_lines e.split_outputs
    else (tab
        ++ (e.output_dtype
            ++ (codes ": "
                ++ (e.component ++ (codes " (" ++ (bool_text e.is_persistent ++ codes ")"))))))
      ∷ []

all_lines : List Entry → List Text
unfolding entry_lines
all_lines [] = []
all_lines (e ∷ es) = entry_lines e ++ all_lines es

unfoldable pub input_lines : Dict Text (List Entry) → List Text
unfolding all_lines
input_lines [] = []
input_lines ((d, es) ∷ m) = (codes "IN: " ++ d) ∷ (all_lines es ++ input_lines m)

unfoldable pub channel_lines : List (Text × Text × Text) → List Text
channel_lines [] = []
channel_lines ((d, channel, codec) ∷ is) =
    (codes "CHANNEL: " ++ (channel ++ (codes " (" ++ (codec ++ (codes ") --> " ++ d)))))
    ∷ channel_lines is

hops : List (Text × Bool) → Text
hops [] = []
hops ((n, hard) ∷ chain) = n ++ ((if hard then [] else codes "]W") ++ (codes " --> " ++ hops chain))

unfoldable pub barrier_lines : Dict Text (List (Text × Bool)) → List Text
unfolding hops
barrier_lines [] = []
barrier_lines ((d, chain) ∷ m) =
    (tab ++ (codes " " ++ (d ++ (codes " --> " ++ hops chain)))) ∷ barrier_lines m

-- `"\n".join(lines)`
unfoldable pub join_lines : List Text → Text
join_lines [] = []
join_lines (l ∷ []) = l
join_lines (l ∷ l' ∷ ls) = l ++ (newline ∷ join_lines (l' ∷ ls))

-- `print_graph`, from its description.
unfoldable pub print_graph : Description → Text
unfolding channel_lines input_lines barrier_lines join_lines
print_graph info = join_lines (
    rule
    ∷ (codes "Digital Twin Flow: "
        ++ (info.namespace ++ (codes " [" ++ (state_text info.state ++ codes "]"))))
    ∷ (channel_lines info.inputs
        ++ (input_lines (by_input info.components)
            ++ (codes "BARRIERS: " ∷ (barrier_lines info.barriers ++ (rule ∷ []))))))

-- The entries of an input type.
abbrev of_input : Text → List Entry → List Entry
of_input k es = filter (λ e. e.input_dtype == k) es

abbrev under : Text → Dict Text (List Entry) → List Entry
under k m = get_or_else (lookup k m) []

under-grouped :
    (k : Text) (m : Dict Text (List Entry)) (e : Entry)
    → under k (grouped m e) ≡ under k m ++ (if e.input_dtype == k then e ∷ [] else [])
under-grouped k m e = ground (
  arith,
  lookup-insert e.input_dtype k (under e.input_dtype m ++ (e ∷ [])) m,
  ==_iff e.input_dtype k,
  append-nil (under k m),
)

if_kept :
    (b : Bool) (e : Entry) (es : List Entry)
    → (if b then e ∷ [] else []) ++ es ≡ (if b then e ∷ es else es)
if_kept true e es = refl
if_kept false e es = refl

under-group :
    (k : Text) (es : List Entry) (m : Dict Text (List Entry))
    → under k (group es m) ≡ under k m ++ of_input k es
unfolding group
under-group k [] m = sym (append-nil (under k m))
under-group k (e ∷ es) m =
    let here = if e.input_dtype == k then e ∷ [] else [] in
    under-group k es (grouped m e)
    ∙ ap (λ z. z ++ of_input k es) (under-grouped k m e)
    ∙ append_assoc (under k m) here (of_input k es)
    ∙ ap (λ z. under k m ++ z) (if_kept (e.input_dtype == k) e (of_input k es))

group-Distinct :
    (es : List Entry) (m : Dict Text (List Entry))
    → Distinct (keys m)
    → Distinct (keys (group es m))
unfolding group
group-Distinct [] m h = h
group-Distinct (e ∷ es) m h =
    group-Distinct es (grouped m e) (keys-insert-Distinct e.input_dtype _ m h)

-- The rendering lists every component once, under the header of its input type, which comes once, and
-- in the order of the description.
pub by_input_exact :
    (es : List Entry) (k : Text)
    → (get_or_else (lookup k (by_input es)) [] ≡ filter (λ e. e.input_dtype == k) es)
      × Distinct (keys (by_input es))
unfolding lookup
by_input_exact es k = (under-group k es [], group-Distinct es [] tt)
