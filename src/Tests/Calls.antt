-- ===== src/Tests/Calls.antt =====
-- A session with one twin, and the calls of its client.
use digital_twin_framework.Prelude.{
  ℕ, Text, codes, true, [], ◌∷◌, Option, none, some, ok, contains, nat_eq, list_eq, list_beq, Dict,
  lookup, ◌≡◌, refl, ◌==◌,
}
use digital_twin_framework.Runtime.Lifecycle.{Life, new_life, stopped}
use digital_twin_framework.Runtime.Lifecycle.Terminal.{here}
use digital_twin_framework.Service.Wire.{Versions, check_versions, check_version, minor, split_dots}
use digital_twin_framework.Service.Twin.{Twin, of_runtime, new_twin, live, live_twin}
use digital_twin_framework.Service.Plugin.{Session, Sessions, status}
use digital_twin_framework.Service.Calls.{
  verbs, answered, refused, Request, Host, finished, twin_call, session_call, run_verb,
}
use digital_twin_framework.Service.Calls.Guarded.{
  bare, Takes, with_life, after_stop, unpickling_guarded, stop_is_final,
}

abbrev ours : Versions
ours = record { python = codes "3.12"; cloudpickle = codes "3.1"; digitaltwin = codes "0.1" }

abbrev stamp : Dict Text Text
stamp =
    (codes "python", codes "3.12")
    ∷ (codes "cloudpickle", codes "3.1")
    ∷ (codes "digitaltwin", codes "0.1")
    ∷ []

abbrev service : Host ℕ ℕ
service = record {
  ours = ours;
  decode = λ blob. ok (some 0);
  no_args = 0;
  has_none = λ n. n == 0;
  closes = none;
  graph_verb = λ verb n l. (finished, l);
}

abbrev ready_twin : Twin ℕ
ready_twin = record new_twin { runtime = some new_life }

abbrev session : Session (Twin ℕ)
session = record { is_active = true; twins = (codes "a", ready_twin) ∷ [] }

abbrev find_session : Text → Sessions (Twin ℕ) → Option (Session (Twin ℕ))
find_session sid ss = lookup sid ss

abbrev adding : Request
adding = record {
  twin_id = codes "a";
  verb = codes "add_task";
  payload = some (codes "blob");
  stamp = stamp;
}

abbrev sessions : Sessions (Twin ℕ)
sessions = (codes "s", session) ∷ []

stamp_ok : check_versions ours stamp ≡ ok tt
unfolding check_versions check_version minor split_dots lookup list_beq
stamp_ok = refl

adding-unpickled : (twin_call service find_session (codes "s") adding sessions).1 ≡ true
unfolding twin_call session_call check_versions check_version minor split_dots lookup list_beq
    live_twin live run_verb
adding-unpickled = refl

unpickling_guarded_example :
    (contains verbs (codes "add_task") ≡ true)
    × ((s : Session (Twin ℕ)) × (find_session (codes "s") sessions ≡ some s)
        × (s.is_active ≡ true)
        × (check_versions ours stamp ≡ ok tt))
unpickling_guarded_example =
    unpickling_guarded service find_session (codes "s") adding sessions adding-unpickled

session-Takes : Takes service session (codes "a") ready_twin new_life stamp
unfolding lookup list_beq
session-Takes = record {
  is_active = refl;
  there = refl;
  live = refl;
  compatible = stamp_ok;
  bare_call = refl;
}

new_life-untouched : (new_life {J = ℕ}).stop_task ≡ none
unfolding new_life
new_life-untouched = refl

abbrev torn : Life ℕ
torn = after_stop service new_life

abbrev stopped_session : Session (Twin ℕ)
stopped_session = record session { twins = (codes "a", with_life service ready_twin torn) ∷ [] }

stopped_session-Takes :
    Takes service stopped_session (codes "a") (with_life service ready_twin torn) torn stamp
unfolding lookup list_beq
stopped_session-Takes = record {
  is_active = refl;
  there = refl;
  live = refl;
  compatible = stamp_ok;
  bare_call = refl;
}

stop_is_final_example :
    let first = session_call service (bare service (codes "a") (codes "stop") stamp) session in
    let again =
      session_call service (bare service (codes "a") (codes "stop") stamp) stopped_session in
    let start =
      session_call service (bare service (codes "a") (codes "start") stamp) stopped_session in
    (first.answer ≡ answered (of_runtime stopped))
    × (lookup (codes "a") first.session.twins ≡ some (with_life service ready_twin torn))
    × (again.answer ≡ answered (of_runtime stopped))
    × (lookup (codes "a") again.session.twins ≡ some (with_life service ready_twin torn))
    × (start.answer ≡ refused (status 409))
    × (lookup (codes "a") start.session.twins ≡ some (with_life service ready_twin torn))
stop_is_final_example =
    stop_is_final service session stopped_session (codes "a") ready_twin
      (with_life service ready_twin torn) new_life torn stamp session-Takes new_life-untouched here
      stopped_session-Takes
