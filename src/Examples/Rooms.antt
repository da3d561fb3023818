-- ===== src/Examples/Rooms.antt =====
-- Joining and leaving, recording, and the requests to a worker.
use vks.Common.{
  arith, ◌≡◌, refl, false, [], ◌∷◌, ◌++◌, map, none, some, Result, ok, if◌then◌else◌, ◌==◌,
}
use vks.Common.GoString.{GoString, GoString-discrete, lit, string_eq}
use vks.Common.Int.{ℤ, ℤ-discrete, pos}
use vks.Common.Dict.{Dict, lookup, insert}
use native.Mathlib.Decide.{ℕ_discrete}
use vks.Worker.Room.Slots.Exclusive.{IsExclusive}
use vks.Worker.Room.State.{World, SipPeer, new, close_peer, pipeline_stop, panics, emit}
use vks.Worker.Room.Members.{
  JoinAnswers, add_peer, remove_peer, add_sip_peer, negotiate_peer, caption, enter,
}
use vks.Worker.Room.Members.Invariant.{IsWellFormed, IsNew}
use vks.Worker.Room.Members.Histories.{
  Reach, here, next, joins, dials, Reach_lem, new-IsWellFormed, add_peer-IsWellFormed,
  remove_peer-IsWellFormed, add_sip_peer-IsWellFormed,
}
use vks.Worker.Room.Recording.{close, close_lem}
use vks.Worker.Pipelines.{Spec, Answers}
use vks.Worker.Pipelines
use vks.Worker.Rooms.{
  Registry, Config, new_registry, get, get_or_create, destroy, options_of, enter_room,
  existing_or_new,
}
use vks.Worker.Rooms.Laws.{destroy_lem}
use vks.Control.Media.{slots_body, acknowledged}
use vks.Control.Media.Slots.{assign_slots-handle_assign_slots}
use vks.Worker.Room.Members.{assign}
use vks.Worker.Handlers.{Api, store, handle_assign_slots}
use vks.Worker.Handlers.Routes.{serve, room_of, creates, delete_peer, delete_room}
use vks.Worker.Handlers.Laws.{serve_isolated, serve_absent}
use vks.Examples.Numbers.{Num, num}
use vks.Examples.Slots.{alice, bob}
use vks.Examples.Speakers.{options}

abbrev dawn : World Num
dawn = record { room = new num options; calls = [] }

abbrev welcome : JoinAnswers
welcome = record { new_peer = none; pipeline_add_peer = ok (1, 2); negotiate = ok (lit "sdp") }

abbrev phone : Result GoString SipPeer
phone = ok (record { audio_port = 4000; video_port = 4002 })

abbrev with_alice : World Num
with_alice = (add_peer num alice (lit "A") welcome dawn).0

abbrev with_both : World Num
with_both = (add_sip_peer num bob (lit "B") (ok (3, 4)) phone with_alice).0

bob-IsNew : IsNew bob with_alice.room
unfolding add_peer negotiate_peer caption enter new lookup insert GoString-discrete ℕ_discrete
bob-IsNew = record { has_id = λ e. cc; not_peer = refl; not_sip = refl }

history : Reach num dawn with_both
unfolding lookup new
history =
    next (next here (joins alice (lit "A") welcome dawn (λ e. cc) refl))
      (dials bob (lit "B") (ok (3, 4)) phone with_alice bob-IsNew)

reach_example : IsWellFormed with_both.room × IsExclusive with_both.room.slots
reach_example = Reach_lem num options with_both history

add_peer_example : IsWellFormed with_alice.room
unfolding lookup new
add_peer_example =
    add_peer-IsWellFormed num alice (lit "A") welcome dawn (λ e. cc) refl
      (new-IsWellFormed num options)

with_alice-IsWellFormed : IsWellFormed with_alice.room
unfolding lookup new
with_alice-IsWellFormed =
    add_peer-IsWellFormed num alice (lit "A") welcome dawn (λ e. cc) refl
      (new-IsWellFormed num options)

add_sip_peer_example : IsWellFormed with_both.room
add_sip_peer_example =
    add_sip_peer-IsWellFormed num bob (lit "B") (ok (3, 4)) phone with_alice bob-IsNew
      with_alice-IsWellFormed

alice_not_sip : lookup alice with_alice.room.sip_peers ≡ none
unfolding add_peer negotiate_peer caption enter new lookup
alice_not_sip = refl

remove_peer_example : IsWellFormed (remove_peer num 7 alice with_alice).room
remove_peer_example =
    remove_peer-IsWellFormed num 7 alice with_alice (λ e. cc) alice_not_sip with_alice-IsWellFormed

abbrev join_paths : GoString → GoString → GoString
join_paths dir file = dir ++ lit "/" ++ file

close_example :
    ((close with_alice).calls
      ≡ with_alice.calls ++ (map (λ p. close_peer p.0) with_alice.room.peers ++ pipeline_stop ∷ []))
    × ((close with_alice).room.peers ≡ [])
    × ((close with_alice).room.sip_peers ≡ with_alice.room.sip_peers)
    × (close (close with_alice) ≡ emit panics (close with_alice))
unfolding add_peer negotiate_peer caption enter new lookup
close_example = close_lem with_alice refl

abbrev config : Config
config = record {
  video_codec = lit "vp8";
  width = pos 1280;
  height = pos 720;
  fps = pos 30;
  video_bitrate = pos 2000;
  audio_bitrate = pos 64;
  sfu = false;
  has_notifier = false;
}

abbrev healthy : Answers
healthy = record { factory = none; start = none }

abbrev first_room : World Num
first_room = record { room = new num (options_of config (lit "r")); calls = [] }

abbrev one_room : Registry Num
one_room = (get_or_create num (lit "r") healthy (new_registry config)).1

destroy_example :
    (get (lit "q") (destroy (lit "r") one_room)
      ≡ (if lit "r" == lit "q" then none else get (lit "q") one_room))
    × (Pipelines.get (lit "r") (destroy (lit "r") one_room).pipes ≡ none)
unfolding get get_or_create existing_or_new enter_room new_registry lookup insert
    Pipelines.get_or_create GoString-discrete ℕ_discrete
destroy_example = destroy_lem (lit "r") (lit "q") one_room first_room refl

abbrev api : Api Num
api = record { rooms = one_room; has_redis = false; recording_dir = []; presence = [] }

isolated_example :
    get (lit "q") (serve num join_paths (λ p. p) (delete_room (lit "r")) api).1.rooms
    ≡ get (lit "q") api.rooms
unfolding room_of GoString-discrete ℕ_discrete
isolated_example = serve_isolated num join_paths (λ p. p) (delete_room (lit "r")) api (lit "q") refl

absent_example :
    get (lit "r") (serve num join_paths (λ p. p) (delete_peer 7 (lit "q") alice) api).1.rooms
    ≡ get (lit "r") api.rooms
unfolding creates room_of get get_or_create existing_or_new enter_room new_registry lookup insert
    Pipelines.get_or_create GoString-discrete ℕ_discrete
absent_example =
    serve_absent num join_paths (λ p. p) (delete_peer 7 (lit "q") alice) api (lit "r") refl refl

abbrev wishes : Dict ℤ GoString
wishes = (pos 3, alice) ∷ (pos 0, []) ∷ []

assigned_example :
    let (response, after) = handle_assign_slots num (lit "r") (some (slots_body wishes)) api in
    (acknowledged (ok response) ≡ none)
    × (after ≡ elim (get (lit "r") api.rooms) [
      | none ↦ api
      | some s ↦ store (lit "r") (assign num wishes s) api
    ])
unfolding lookup GoString-discrete ℕ_discrete ℤ-discrete
assigned_example =
    assign_slots-handle_assign_slots num (lit "r") wishes (get (lit "r") api.rooms) api
      (omega arith, (omega arith, tt)) (refl, (refl, tt)) refl
