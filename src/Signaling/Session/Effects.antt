-- ===== src/Signaling/Session/Effects.antt =====
-- What the messages of a client (session.go) may change in the hub and in the store of sessions.
use vks.Common.{
  ◌≡◌, refl, true, false, ◌||◌, Option, none, some, arith, Result, ok, err, ◌==◌, Bool-cases, inl,
  inr,
}
use vks.Common.GoString.{GoString, lit, string_eq, is_empty}
use vks.Common.Dict.{lookup}
use vks.Signaling.Protocol.{
  type_peer_left, participant, type_pong, absent, Payload, Envelope, JoinPayload, Claims, type_join,
  type_answer,
}
use vks.Signaling.Hub.{to_participant, remove, Session}
use vks.Signaling.Session.{
  add_peer, ask, ask_redis, remove_peer, presence_remove, Service, Answers, Message, send,
  send_error, tell, broadcast_roster, identified, seat, enter, verified, on_join, answered, added,
  on_offer, relay, decoded, handle, told, depart,
}

-- The hub and the store are as before.
abbrev pub Keeps : Service → Service → Type 0
Keeps svc t = (t.rooms ≡ svc.rooms) × (t.sessions ≡ svc.sessions)

pub broadcast_roster-Keeps :
    (a : Answers) (s : Session) (svc : Service) → Keeps svc (broadcast_roster a s svc)
unfolding broadcast_roster tell
broadcast_roster-Keeps a s svc = ground arith

send-Keeps :
    (o : Option GoString) (s : Session) (env : Envelope) (svc : Service)
    → Keeps svc (send o s env svc).0
unfolding send
send-Keeps o s env svc = ground arith

pub send_error-Keeps :
    (s : Session) (code msg : GoString) (svc : Service) → Keeps svc (send_error s code msg svc)
unfolding send_error
send_error-Keeps s code msg svc = ground arith

relay-Keeps :
    (kind payload : GoString) (s : Session) (svc : Service) → Keeps svc (relay kind payload s svc)
unfolding relay
relay-Keeps kind payload s svc = ground arith

answered-Keeps :
    (a : Answers) (s : Session) (r : Service × Option GoString) → Keeps r.0 (answered a s r).0
unfolding answered
answered-Keeps a s (svc, some e) = (refl, refl)
answered-Keeps a s (svc, none) = broadcast_roster-Keeps a s svc

added-Keeps :
    (a : Answers) (r : Result GoString GoString) (s : Session) (svc : Service)
    → Keeps svc (added a r s svc).0
unfolding added
added-Keeps a (err e) s svc = (refl, refl)
added-Keeps a (ok sdp) s svc =
    let sent = send a.own_write s (record { kind = type_answer; payload = Payload.sdp sdp }) svc in
    ground (
      arith,
      answered-Keeps a s sent,
      send-Keeps a.own_write s (record { kind = type_answer; payload = Payload.sdp sdp }) svc,
    )

on_offer-Keeps :
    (a : Answers) (offer : GoString) (s : Session) (svc : Service)
    → Keeps svc (on_offer a offer s svc).0
unfolding on_offer
on_offer-Keeps a offer s svc = ground (
  arith,
  added-Keeps a a.add_peer_answer s (ask (add_peer s.room_id s.id s.display_name s.role offer) svc),
)

-- What a message of `s` may do to the hub and the store: nothing, or let the session into a room.
pub data Effect (s : Session) (svc : Service) (t : Service) : Type 0 where
  same : Keeps svc t → Effect s svc t
  let_in :
      (a : Answers) (c : Claims) (p : JoinPayload)
      → is_empty p.room_id ≡ false
      → Keeps (seat (identified a c p s) svc) t
      → Effect s svc t

pub enter-Keeps : (a : Answers) (s : Session) (svc : Service) → Keeps (seat s svc) (enter a s svc).0
unfolding enter
enter-Keeps a s svc = ground arith

on_join-Effect :
    (a : Answers) (p : JoinPayload) (s : Session) (svc : Service)
    → Effect s svc (on_join a p s svc).0
unfolding on_join
on_join-Effect a p s svc = elim (Bool-cases (is_empty p.token || is_empty p.room_id)) [
  | inl missing ↦ rw (missing, on_join) (same (refl, refl))
  | inr given ↦ rw (given, on_join) (by_verifier (a.verify p.token) (ground arith))
]
  where
    by_verifier :
        (r : Result GoString Claims)
        → is_empty p.room_id ≡ false
        → Effect s svc (verified a p r s svc).0
    by_verifier (err e) has_room =
        unfold verified in same (send_error-Keeps s (lit "unauthorized") (lit "invalid token") svc)
    by_verifier (ok c) has_room =
        unfold verified in let_in a c p has_room (enter-Keeps a (identified a c p s) svc)

decoded-Keeps {ℓ} :
    {A : Type ℓ} (r : Result GoString A) (k : A → Service → Service × Option GoString)
    (svc : Service)
    → ((x : A) → Keeps svc (k x svc).0)
    → Keeps svc (decoded r k svc).0
unfolding decoded
decoded-Keeps (err e) k svc h = (refl, refl)
decoded-Keeps (ok x) k svc h = h x

-- Whatever is not a join leaves the hub and the store.
pub handle-Keeps :
    (a : Answers) (s : Session) (m : Message) (svc : Service)
    → (m.kind == type_join) ≡ false
    → Keeps svc (handle a s m svc).0
unfolding handle
handle-Keeps a s m svc other = rw (other) (
    ground (
      arith,
      decoded-Keeps (a.decode_sdp m.payload) (λ offer. on_offer a offer s) svc
          (λ offer. on_offer-Keeps a offer s svc),
      relay-Keeps (lit "chat") m.payload s svc,
      relay-Keeps (lit "control") m.payload s svc,
      send-Keeps a.own_write s (record { kind = type_pong; payload = absent }) svc,
      send_error-Keeps s (lit "invalid_argument") (lit "unknown type") svc,
    ))

pub handle-Effect :
    (a : Answers) (s : Session) (m : Message) (svc : Service)
    → (m.kind == type_join) ≡ true
    → Effect s svc (handle a s m svc).0
unfolding handle decoded
handle-Effect a s m svc join = rw (join) (by_payload (a.decode_join m.payload))
  where
    by_payload :
        (r : Result GoString JoinPayload) → Effect s svc (decoded r (λ p. on_join a p s) svc).0
    by_payload (err e) = same (refl, refl)
    by_payload (ok p) = on_join-Effect a p s svc

pub told-Keeps : (id : GoString) (r : Service × Option GoString) → Keeps r.0 (told id r)
unfolding told
told-Keeps id (svc, none) = (refl, refl)
told-Keeps id (svc, some e) = by_session (lookup id svc.sessions)
  where
    by_session :
        (o : Option Session)
        → Keeps svc (elim o [ none ↦ svc | some s ↦ send_error s (lit "internal") e svc ])
    by_session none = (refl, refl)
    by_session (some s) = send_error-Keeps s (lit "internal") e svc

-- Leaving a room strikes the session from it.
pub depart-Keeps :
    (a : Answers) (s : Session) (svc : Service)
    → Keeps (record svc { rooms = remove s.room_id s.id svc.rooms }) (depart a s svc)
unfolding depart tell
depart-Keeps a s svc =
    let asked = ask_redis (presence_remove s.room_id s.id) (ask (remove_peer s.room_id s.id) svc) in
    let gone : Service = record asked { rooms = remove s.room_id s.id asked.rooms } in
    let left : Envelope = record {
      kind = type_peer_left;
      payload = participant (to_participant s);
    } in
    ground (arith, broadcast_roster-Keeps a s (tell s.room_id s.id left gone))
