-- ===== src/Signaling/Session/Leaving.antt =====
-- What stays behind of a client that leaves, or that joins a second room.
use vks.Common.{◌≡◌, refl, Bool, true, false, [], some, arith, ◌==◌, ◌∷◌, ◌++◌, ok}
use mathlib.Core.List.{append_assoc}
use native.Mathlib.Decide.{ℕ_discrete}
use vks.Common.GoString.{GoString, GoString-discrete, lit, string_eq, is_empty}
use vks.Common.Dict.{lookup, lookup-insert}
use vks.Signaling.Protocol.{
  JoinPayload, Claims, error, raw, type_chat, type_join, type_leave, type_error,
}
use vks.Signaling.Hub.{Session}
use vks.Signaling.Hub.Laws.{
  envelopes_to, envelopes_to-append, is_member, is_member-add, is_member-remove,
}
use vks.Signaling.Session.{
  Service, Answers, Message, identified, seat, enter, verified, on_join, handle, told, receive,
  hang_up, send, post, send_error, decoded,
}
use vks.Signaling.Session.Effects.{enter-Keeps, told-Keeps}
use vks.Signaling.Session.Seats.{joins_again, ended, cleanup-Keeps}
use vks.Signaling.Session.Histories.{start, Reach, later, hears, Reach-IsSeated, receive-chat}

-- A leave message of an open session is answered with an error frame.
receive-leave :
    (a : Answers) (id : GoString) (s : Session) (m : Message) (svc : Service)
    → lookup id svc.sessions ≡ some s
    → s.closed ≡ false
    → m.kind ≡ type_leave
    → receive a id m svc ≡ record svc {
      sent =
          svc.sent
          ++ record {
            to = s.id;
            env = record { kind = type_error; payload = error (lit "internal") (lit "leave") };
          }
            ∷ [];
    }
unfolding receive handle told send_error post send GoString-discrete ℕ_discrete
receive-leave a id s m svc there open_ leave =
    rw (there, receive) (rw (leave, handle) (rw (there, told) (rw (open_) refl)))

received_leave :
    (a : Answers) (id : GoString) (s : Session) (m : Message) (svc : Service)
    → lookup id svc.sessions ≡ some s
    → s.id ≡ id
    → s.closed ≡ false
    → m.kind ≡ type_leave
    → envelopes_to id (receive a id m svc).sent
      ≡ envelopes_to id svc.sent
        ++ record { kind = type_error; payload = error (lit "internal") (lit "leave") } ∷ []
received_leave a id s m svc there own open_ leave =
    rw (receive-leave a id s m svc there open_ leave) (
      ground (
        arith,
        own,
        envelopes_to-append id svc.sent (
            record {
              to = s.id;
              env = record { kind = type_error; payload = error (lit "internal") (lit "leave") };
            }
            ∷ []),
      ))

same_text : (x : GoString) → (x == x) ≡ true
same_text x = elim (GoString-discrete x x) [ yes e ↦ ground arith | no n ↦ absurd (n refl) ]

leave_is_no_join : (s : Session) (m : Message) → m.kind ≡ type_leave → joins_again s m ≡ false
unfolding GoString-discrete ℕ_discrete
leave_is_no_join s m leave = rw leave refl

-- A client that sends leave has left nothing: on a service that any steps have led to in which no client
-- joins while it is in a room, an open session that sends leave gets an error frame "internal" with the
-- message "leave", and the next chat message of another session of the same room still goes to it.
pub receive-leave_stays :
    (redis : Bool) (a b : Answers) (id q : GoString) (s t : Session) (m c : Message) (svc : Service)
    → Reach (start redis) svc
    → lookup id svc.sessions ≡ some s
    → lookup q svc.sessions ≡ some t
    → s.closed ≡ false
    → is_empty s.room_id ≡ false
    → t.room_id ≡ s.room_id
    → (id == q) ≡ false
    → m.kind ≡ type_leave
    → c.kind ≡ type_chat
    → envelopes_to id (receive b q c (receive a id m svc)).sent
      ≡ envelopes_to id svc.sent
        ++ record { kind = type_error; payload = error (lit "internal") (lit "leave") }
          ∷ record { kind = type_chat; payload = raw c.payload }
          ∷ []
receive-leave_stays redis a b id q s t m c svc r there there' open_ inside same distinct leave
      chat =
    let after = receive a id m svc in
    let e = receive-leave a id s m svc there open_ leave in
    let own = (Reach-IsSeated redis svc r).named id s there in
    let step = later r (hears a id s m svc there open_ (leave_is_no_join s m leave)) in
    let told_ =
      receive-chat redis b q id t c after step (rw e there') (rw (same, inside) refl) chat in
    let refused = received_leave a id s m svc there own open_ leave in
    rw (told_, distinct, refused, e, there, open_, same, inside)
      (rw (same_text s.room_id) (
        append_assoc (envelopes_to id svc.sent)
          (record { kind = type_error; payload = error (lit "internal") (lit "leave") } ∷ [])
          (record { kind = type_chat; payload = raw c.payload } ∷ [])))

-- A join with a valid token.
joined_lem :
    (a : Answers) (id : GoString) (s : Session) (m : Message) (p : JoinPayload) (c : Claims)
    (svc : Service)
    → lookup id svc.sessions ≡ some s
    → m.kind ≡ type_join
    → a.decode_join m.payload ≡ ok p
    → is_empty p.token ≡ false
    → is_empty p.room_id ≡ false
    → a.verify p.token ≡ ok c
    → receive a id m svc ≡ told id (enter a (identified a c p s) svc)
unfolding receive handle decoded on_join verified GoString-discrete ℕ_discrete
joined_lem a id s m p c svc there join payload token room valid =
    rw (there, receive)
      (rw (join, handle)
        (rw (payload, decoded) (rw (token, room, on_join) (rw (valid, verified) refl))))

hang_up-rooms :
    (a : Answers) (id : GoString) (s : Session) (svc : Service)
    → lookup id svc.sessions ≡ some s
    → (hang_up a id svc).rooms ≡ (ended s svc).rooms
unfolding hang_up
hang_up-rooms a id s svc there = rw (there, hang_up) (cleanup-Keeps a s svc).0

-- A client that joins a second room with a good token stays in the first one: when its socket ends
-- directly after the second join, the hub still has the closed session in the first room.
pub receive_join-stays :
    (a b : Answers) (id : GoString) (s : Session) (m : Message) (p : JoinPayload) (c : Claims)
    (svc : Service)
    → lookup id svc.sessions ≡ some s
    → s.id ≡ id
    → s.closed ≡ false
    → is_member s.room_id id svc.rooms ≡ true
    → m.kind ≡ type_join
    → a.decode_join m.payload ≡ ok p
    → is_empty p.token ≡ false
    → is_empty p.room_id ≡ false
    → a.verify p.token ≡ ok c
    → (p.room_id == s.room_id) ≡ false
    → is_member s.room_id id (hang_up b id (receive a id m svc)).rooms ≡ true
unfolding seat identified
receive_join-stays a b id s m p c svc there own open_ member join payload token room valid other =
    let inside = identified a c p s in
    let t = enter a inside svc in
    let e = enter-Keeps a inside svc in
    let k = told-Keeps id t in
    rw (joined_lem a id s m p c svc there join payload token room valid) (
      rw
        (hang_up-rooms b id inside (told id t)
          (ground (arith, e, k, lookup-insert id s.id inside svc.sessions)))
        (ground (
          arith,
          e,
          k,
          is_member-remove p.room_id s.id s.room_id id (told id t).rooms,
          is_member-add p.room_id s.id s.room_id id svc.rooms,
        )))
