-- ===== src/Examples/Signaling.antt =====
-- Two clients of the signaling service, and what the theorems on sessions say of them.
use vks.Common.{◌≡◌, refl, true, false, [], ◌∷◌, none, ok, if◌then◌else◌, ◌==◌, ◌++◌}
use native.Mathlib.Decide.{ℕ_discrete}
use vks.Common.GoString.{GoString, GoString-discrete, lit, string_eq}
use vks.Common.Dict.{lookup, insert}
use vks.Signaling.Protocol.{
  absent, error, raw, type_chat, type_error, type_join, type_leave, type_ping,
}
use vks.Signaling.Hub.{Session, members, add, broadcast, to_members}
use vks.Signaling.Hub.Laws.{frames_to, envelopes_to, open_session, is_member, broadcast_lem}
use vks.Signaling.Session.{
  Service, Answers, Message, new, connect, send, tell, identified, seat, welcome, enter, verified,
  on_join, decoded, handle, told, receive, hang_up,
}
use vks.Signaling.Session.Seats.{seated, IsSeated}
use vks.Signaling.Session.Histories.{
  start, connects, hears, Reach, here, later, Reach-IsSeated, receive-chat, hang_up-leaves,
}
use vks.Signaling.Session.Leaving.{receive-leave_stays, receive_join-stays}

abbrev anna : GoString
anna = lit "anna"

abbrev boris : GoString
boris = lit "boris"

-- Each token is good, and a join's payload is the name of its room.
abbrev answers : Answers
answers = record {
  now = 7;
  decode_join = λ payload. ok (record { room_id = payload; token = lit "t"; display_name = [] });
  decode_sdp = λ payload. ok payload;
  verify = λ token. ok (record { user_id = lit "u"; role = lit "user"; email = lit "e" });
  add_peer_answer = ok (lit "sdp");
  roster_answer = ok [];
  own_write = none;
}

abbrev to_room : GoString → Message
to_room room = record { kind = type_join; payload = room }

abbrev says : GoString → Message
says text = record { kind = type_chat; payload = text }

abbrev inside : GoString → GoString → Session
inside id room = record {
  id = id;
  room_id = room;
  display_name = lit "e";
  role = lit "user";
  user_id = lit "u";
  joined_at = 7;
  closed = false;
}

-- Both clients connect and join the room "x".
abbrev connected : Service
connected = connect boris (connect anna (start false))

abbrev one_in : Service
one_in = receive answers anna (to_room (lit "x")) connected

abbrev two_in : Service
two_in = receive answers boris (to_room (lit "x")) one_in

one_in_joined : Reach (start false) one_in
unfolding connect new lookup insert GoString-discrete ℕ_discrete
one_in_joined =
    later
      (later (later here (connects anna (start false) refl))
        (connects boris (connect anna (start false)) refl))
      (hears answers anna (new anna) (to_room (lit "x")) connected refl refl refl)

two_in_joined : Reach (start false) two_in
unfolding connect new lookup insert receive handle told decoded on_join verified enter welcome tell
    send seat identified add members broadcast to_members GoString-discrete ℕ_discrete
two_in_joined =
    later one_in_joined (hears answers boris (new boris) (to_room (lit "x")) one_in refl refl refl)

in_step_example : IsSeated two_in.rooms two_in.sessions
in_step_example = Reach-IsSeated false two_in two_in_joined

chat_example :
    envelopes_to boris (receive answers anna (says (lit "hi")) two_in).sent
    ≡ envelopes_to boris two_in.sent
      ++ (if boris == anna
          then []
          else if seated (lit "x") (lookup boris two_in.sessions)
          then record { kind = type_chat; payload = raw (lit "hi") } ∷ []
          else [])
unfolding connect new lookup insert receive handle told decoded on_join verified enter welcome tell
    send seat identified add members broadcast to_members GoString-discrete ℕ_discrete
chat_example =
    receive-chat false answers anna boris (inside anna (lit "x")) (says (lit "hi")) two_in
      two_in_joined refl refl refl

hang_up_example : is_member (lit "x") anna (hang_up answers anna two_in).rooms ≡ false
hang_up_example = hang_up-leaves false answers anna (lit "x") two_in two_in_joined

broadcast_example :
    frames_to boris (
      broadcast
        (lit "x")
        anna
        (record { kind = type_ping; payload = absent })
        two_in.sessions
        two_in.rooms)
    ≡ (if boris == anna
        then 0
        else if is_member (lit "x") boris two_in.rooms
        then open_session boris two_in.sessions
        else 0)
broadcast_example =
    broadcast_lem (lit "x") anna boris (record { kind = type_ping; payload = absent })
      two_in.sessions two_in.rooms (in_step_example.distinct (lit "x"))

leave_example :
    envelopes_to anna
      (receive answers boris
        (says (lit "hi"))
        (receive answers anna (record { kind = type_leave; payload = [] }) two_in)).sent
    ≡ envelopes_to anna two_in.sent
      ++ record { kind = type_error; payload = error (lit "internal") (lit "leave") }
        ∷ record { kind = type_chat; payload = raw (lit "hi") }
        ∷ []
unfolding connect new lookup insert receive handle told decoded on_join verified enter welcome tell
    send seat identified add members broadcast to_members GoString-discrete ℕ_discrete
leave_example =
    receive-leave_stays false answers answers anna boris (inside anna (lit "x"))
      (inside boris (lit "x")) (record { kind = type_leave; payload = [] }) (says (lit "hi")) two_in
      two_in_joined refl refl refl refl refl refl refl refl

ghost_example :
    is_member
      (lit "x")
      anna
      (hang_up answers anna (receive answers anna (to_room (lit "y")) one_in)).rooms
    ≡ true
unfolding connect new lookup insert receive handle told decoded on_join verified enter welcome tell
    send seat identified add members GoString-discrete ℕ_discrete
ghost_example =
    receive_join-stays answers answers anna (inside anna (lit "x")) (to_room (lit "y"))
      (record { room_id = lit "y"; token = lit "t"; display_name = [] })
      (record { user_id = lit "u"; role = lit "user"; email = lit "e" }) one_in refl refl refl refl
      refl refl refl refl refl refl
