-- ===== src/Signaling/Session/Histories.antt =====
-- The service over its whole life: every sequence of connections, messages, ends and kicks.
use vks.Common.{
  ◌≡◌, ◌∙◌, ap, refl, ◌∷◌, ◌++◌, Bool, true, false, [], Option, none, some, arith, if◌then◌else◌,
  ◌==◌, Option-cases, inl, inr,
}
use vks.Common.GoString.{GoString-discrete, GoString, lit, string_eq, is_empty}
use vks.Common.Dict.{lookup, lookup-insert, NodupKeys}
use vks.Signaling.Protocol.{Envelope, raw, type_chat}
use vks.Signaling.Hub.{Session, members, broadcast}
use vks.Signaling.Hub.Laws.{
  envelopes_to, envelopes_to-append, envelopes_to-broadcast, if_open, is_member,
}
use vks.Signaling.Session.{
  Service, Answers, Message, connect, handle, told, receive, hang_up, kick, relay, tell,
}
use vks.Signaling.Session.Seats.{
  seated, IsSeated, cleanup-Keeps, joins_again, receive-IsSeated, connect-IsSeated,
  hang_up-IsSeated, kick-IsSeated,
}

-- A service that has just started.
abbrev pub start : Bool → Service
start redis = record { rooms = []; sessions = []; has_redis = redis; sent = []; asked = [] }

-- One step of the service. An id is new (a uuid), a closed session reads no more, and no client joins
-- while it is in a room.
pub data Step : Service → Service → Type 0 where
  connects :
      (id : GoString) (svc : Service) → lookup id svc.sessions ≡ none → Step svc (connect id svc)
  hears :
      (a : Answers) (id : GoString) (s : Session) (m : Message) (svc : Service)
      → lookup id svc.sessions ≡ some s
      → s.closed ≡ false
      → joins_again s m ≡ false
      → Step svc (receive a id m svc)
  hangs_up : (a : Answers) (id : GoString) (svc : Service) → Step svc (hang_up a id svc)
  kicks :
      (a : Answers) (room id reason : GoString) (svc : Service)
      → Step svc (kick a room id reason svc)

pub data Reach (svc : Service) : Service → Type 0 where
  here : Reach svc svc
  later : {t u : Service} → Reach svc t → Step t u → Reach svc u

Step-IsSeated :
    {t u : Service} → Step t u → IsSeated t.rooms t.sessions → IsSeated u.rooms u.sessions
Step-IsSeated (connects id svc fresh) wf = connect-IsSeated id svc wf fresh
Step-IsSeated (hears a id s m svc there open_ once) wf =
    receive-IsSeated a id s m svc wf there open_ once
Step-IsSeated (hangs_up a id svc) wf = hang_up-IsSeated a id svc wf
Step-IsSeated (kicks a room id reason svc) wf = kick-IsSeated a room id reason svc wf

start-IsSeated : (redis : Bool) → IsSeated (start redis).rooms (start redis).sessions
unfolding members lookup
start-IsSeated redis = record {
  listed = λ room q. refl;
  named = λ q s e. ground arith;
  distinct = λ room. tt;
}

-- After any steps in which no client joins while it is in a room, the hub lists in each room exactly the
-- open sessions that have joined it, each once, and every session stands in the store under its own id.
pub Reach-IsSeated :
    (redis : Bool) (t : Service) → Reach (start redis) t → IsSeated t.rooms t.sessions
Reach-IsSeated redis _ here = start-IsSeated redis
Reach-IsSeated redis _ (later r step) = Step-IsSeated step (Reach-IsSeated redis _ r)

relay_lem :
    (kind payload q : GoString) (s : Session) (svc : Service)
    → NodupKeys (members s.room_id svc.rooms)
    → is_empty s.room_id ≡ false
    → let env : Envelope = record { kind = kind; payload = raw payload } in
      envelopes_to q (relay kind payload s svc).sent
      ≡ envelopes_to q svc.sent
        ++ (if q == s.id
            then []
            else if is_member s.room_id q svc.rooms
            then if_open q env svc.sessions
            else [])
unfolding relay tell
relay_lem kind payload q s svc distinct inside =
    let env : Envelope = record { kind = kind; payload = raw payload } in
    rw inside (
      envelopes_to-append q svc.sent (broadcast s.room_id s.id env svc.sessions svc.rooms)
      ∙ ap (λ es. envelopes_to q svc.sent ++ es)
          (envelopes_to-broadcast s.room_id s.id q env svc.sessions svc.rooms distinct))

received_chat :
    (a : Answers) (id : GoString) (s : Session) (m : Message) (svc : Service)
    → lookup id svc.sessions ≡ some s
    → m.kind ≡ type_chat
    → receive a id m svc ≡ relay (lit "chat") m.payload s svc
unfolding receive handle told GoString-discrete
received_chat a id s m svc there chat = rw (there, receive) (rw (chat, handle) (ground arith))

-- Where a session is seated, a write to it goes out.
if_seated :
    (room q : GoString) (env : Envelope) (svc : Service)
    → IsSeated svc.rooms svc.sessions
    → (if is_member room q svc.rooms then if_open q env svc.sessions else [])
      ≡ (if seated room (lookup q svc.sessions) then env ∷ [] else [])
if_seated room q env svc wf = rw (wf.listed room q) (seated_open (lookup q svc.sessions))
  where
    seated_open :
        (o : Option Session)
        → (if seated room o
            then elim o [ none ↦ [] | some s ↦ if s.closed then [] else env ∷ [] ]
            else [])
          ≡ (if seated room o then env ∷ [] else [])
    seated_open none = refl
    seated_open (some s) = ground arith

-- On a service that any steps have led to in which no client joins while it is in a room, a chat message
-- of a session that is in a room goes, as a chat message with the same payload, once to every other open
-- session that has joined this room, and nothing goes to anybody else.
pub receive-chat :
    (redis : Bool) (a : Answers) (id q : GoString) (s : Session) (m : Message) (svc : Service)
    → Reach (start redis) svc
    → lookup id svc.sessions ≡ some s
    → is_empty s.room_id ≡ false
    → m.kind ≡ type_chat
    → envelopes_to q (receive a id m svc).sent
      ≡ envelopes_to q svc.sent
        ++ (if q == id
            then []
            else if seated s.room_id (lookup q svc.sessions)
            then record { kind = type_chat; payload = raw m.payload } ∷ []
            else [])
receive-chat redis a id q s m svc r there inside chat =
    let wf = Reach-IsSeated redis svc r in
    let env : Envelope = record { kind = type_chat; payload = raw m.payload } in
    rw (received_chat a id s m svc there chat) (
      rw
        (
          relay_lem type_chat m.payload q s svc (wf.distinct s.room_id) inside,
          wf.named id s there,
          if_seated s.room_id q env svc wf,
        )
        refl)

-- A closed session, or none.
abbrev is_gone : Option Session → Bool
is_gone none = true
is_gone (some s) = s.closed

hang_up-is_gone :
    (a : Answers) (id : GoString) (svc : Service)
    → ((s : Session) → lookup id svc.sessions ≡ some s → s.id ≡ id)
    → is_gone (lookup id (hang_up a id svc).sessions) ≡ true
unfolding hang_up
hang_up-is_gone a id svc named = elim (Option-cases (lookup id svc.sessions)) [
  | inl gone ↦ rw (gone, hang_up) (ground arith)
  | inr (s, there) ↦
      rw (there, hang_up)
        (ground (
          arith,
          cleanup-Keeps a s svc,
          named s there,
          lookup-insert id s.id (record s { closed = true }) svc.sessions,
        ))
]

-- When the socket of a session ends, on a service that any steps have led to in which no client joins while
-- it is in a room, the hub has the session in no room any more.
pub hang_up-leaves :
    (redis : Bool) (a : Answers) (id room : GoString) (svc : Service)
    → Reach (start redis) svc
    → is_member room id (hang_up a id svc).rooms ≡ false
hang_up-leaves redis a id room svc r =
    let wf = Reach-IsSeated redis svc r in
    let after = hang_up-IsSeated a id svc wf in
    ground (arith, after.listed room id, hang_up-is_gone a id svc (wf.named id))
