-- ===== src/Signaling/Session/Seats.antt =====
-- The hub lists exactly the open sessions that have joined a room, if no client joins twice.
use vks.Common.{
  ◌≡◌, ◌∙◌, ap, refl, Bool, true, false, not, ◌&&◌, Option, none, some, arith, if◌then◌else◌, ◌==◌,
  Bool-cases, Option-cases, inl, inr,
}
use vks.Common.GoString.{GoString, lit, string_eq, is_empty}
use vks.Common.Dict.{lookup, insert, lookup-insert, NodupKeys}
use vks.Signaling.Protocol.{type_join}
use vks.Signaling.Hub.{Session, Rooms, Sessions, members, remove}
use vks.Signaling.Hub.Laws.{
  is_member, is_member-add, is_member-remove, add-NodupKeys, remove-NodupKeys,
}
use vks.Signaling.Session.{
  Service, Answers, Message, new, connect, identified, seat, handle, told, receive, cleanup,
  hang_up, kick, send_error,
}
use vks.Signaling.Session.Effects.{
  Keeps, Effect, same, let_in, handle-Keeps, handle-Effect, told-Keeps, depart-Keeps,
  send_error-Keeps,
}

-- Whether a session belongs into a room of the hub.
abbrev pub seated : GoString → Option Session → Bool
seated room none = false
seated room (some s) = not s.closed && not (is_empty s.room_id) && s.room_id == room

pub record IsSeated (rooms : Rooms) (sessions : Sessions) : Type 0 where
  pub listed : (room q : GoString) → is_member room q rooms ≡ seated room (lookup q sessions)
  pub named : (q : GoString) (s : Session) → lookup q sessions ≡ some s → s.id ≡ q
  pub distinct : (room : GoString) → NodupKeys (members room rooms)

IsSeated-Keeps :
    (svc t : Service) → Keeps svc t → IsSeated svc.rooms svc.sessions → IsSeated t.rooms t.sessions
IsSeated-Keeps svc t (r, s) wf = rw (r, s) wf

under_own_id :
    (id : GoString) (s : Session) (svc : Service)
    → IsSeated svc.rooms svc.sessions
    → lookup id svc.sessions ≡ some s
    → lookup s.id svc.sessions ≡ some s
under_own_id id s svc wf there = ap (λ k. lookup k svc.sessions) (wf.named id s there) ∙ there

-- A session that is written into the store under its own id.
named-insert :
    (s : Session) (ss : Sessions)
    → ((q : GoString) (t : Session) → lookup q ss ≡ some t → t.id ≡ q)
    → (q : GoString) (t : Session) → lookup q (insert s.id s ss) ≡ some t
    → t.id ≡ q
named-insert s ss h q t e = ground (arith, lookup-insert q s.id s ss, h q t)

-- An open session without a room enters one.
seat-IsSeated :
    (s t : Session) (svc : Service)
    → IsSeated svc.rooms svc.sessions
    → lookup t.id svc.sessions ≡ some s
    → is_empty s.room_id ≡ true
    → t.closed ≡ false
    → is_empty t.room_id ≡ false
    → IsSeated (seat t svc).rooms (seat t svc).sessions
unfolding seat
seat-IsSeated s t svc wf there free open_ named = record {
  listed = λ room q. ground (
    arith,
    is_member-add t.room_id t.id room q svc.rooms,
    lookup-insert q t.id t svc.sessions,
    wf.listed room q,
  );
  named = named-insert t svc.sessions wf.named;
  distinct = λ room. add-NodupKeys t.room_id t.id room svc.rooms wf.distinct;
}

-- A join of a session that is in a room.
abbrev pub joins_again : Session → Message → Bool
joins_again s m = m.kind == type_join && not (is_empty s.room_id)

-- A session that joins for the first time keeps the lists in step, whatever it says.
pub handle-IsSeated :
    (a : Answers) (id : GoString) (s : Session) (m : Message) (svc : Service)
    → IsSeated svc.rooms svc.sessions
    → lookup id svc.sessions ≡ some s
    → s.closed ≡ false
    → joins_again s m ≡ false
    → IsSeated (handle a s m svc).0.rooms (handle a s m svc).0.sessions
unfolding identified
handle-IsSeated a id s m svc wf there open_ once = elim (Bool-cases (m.kind == type_join)) [
  | inl join ↦ by_effect (handle-Effect a s m svc join) (ground arith)
  | inr other ↦ IsSeated-Keeps svc (handle a s m svc).0 (handle-Keeps a s m svc other) wf
]
  where
    by_effect :
        {t : Service} → Effect s svc t → is_empty s.room_id ≡ true → IsSeated t.rooms t.sessions
    by_effect {t} (same k) free = IsSeated-Keeps svc t k wf
    by_effect {t} (let_in b c p named k) free =
        let inside = identified b c p s in
        let at = under_own_id id s svc wf there in
        IsSeated-Keeps (seat inside svc) t k (seat-IsSeated s inside svc wf at free open_ named)

pub receive-IsSeated :
    (a : Answers) (id : GoString) (s : Session) (m : Message) (svc : Service)
    → IsSeated svc.rooms svc.sessions
    → lookup id svc.sessions ≡ some s
    → s.closed ≡ false
    → joins_again s m ≡ false
    → IsSeated (receive a id m svc).rooms (receive a id m svc).sessions
unfolding receive
receive-IsSeated a id s m svc wf there open_ once =
    rw (there, receive)
      (IsSeated-Keeps (handle a s m svc).0 (told id (handle a s m svc))
        (told-Keeps id (handle a s m svc)) (handle-IsSeated a id s m svc wf there open_ once))

pub connect-IsSeated :
    (id : GoString) (svc : Service)
    → IsSeated svc.rooms svc.sessions
    → lookup id svc.sessions ≡ none
    → IsSeated (connect id svc).rooms (connect id svc).sessions
unfolding connect new
connect-IsSeated id svc wf fresh = record {
  listed = λ room q. ground (arith, lookup-insert q id (new id) svc.sessions, wf.listed room q);
  named = named-insert (new id) svc.sessions wf.named;
  distinct = wf.distinct;
}

-- The store behind the first lines of cleanup.
abbrev pub shut : Session → Service → Service
shut s svc = record svc { sessions = insert s.id (record s { closed = true }) svc.sessions }

-- A session without a room leaves nothing in the hub.
shut-IsSeated :
    (s : Session) (svc : Service)
    → IsSeated svc.rooms svc.sessions
    → lookup s.id svc.sessions ≡ some s
    → is_empty s.room_id ≡ true
    → IsSeated (shut s svc).rooms (shut s svc).sessions
shut-IsSeated s svc wf there outside =
    let closed : Session = record s { closed = true } in
    record {
      listed = λ room q. ground (arith, lookup-insert q s.id closed svc.sessions, wf.listed room q);
      named = named-insert closed svc.sessions wf.named;
      distinct = wf.distinct;
    }

-- The store and the hub behind the cleanup of a session that is in a room.
abbrev pub left : Session → Service → Service
left s svc = record (shut s svc) { rooms = remove s.room_id s.id svc.rooms }

left-IsSeated :
    (s : Session) (svc : Service)
    → IsSeated svc.rooms svc.sessions
    → lookup s.id svc.sessions ≡ some s
    → IsSeated (left s svc).rooms (left s svc).sessions
left-IsSeated s svc wf there =
    let closed : Session = record s { closed = true } in
    record {
      listed = λ room q. ground (
        arith,
        is_member-remove s.room_id s.id room q svc.rooms,
        lookup-insert q s.id closed svc.sessions,
        wf.listed room q,
      );
      named = named-insert closed svc.sessions wf.named;
      distinct = λ room. remove-NodupKeys s.room_id s.id room svc.rooms wf.distinct;
    }

-- What cleanup leaves of the store and the hub.
abbrev pub ended : Session → Service → Service
ended s svc = if s.closed then svc else if is_empty s.room_id then shut s svc else left s svc

pub cleanup-Keeps :
    (a : Answers) (s : Session) (svc : Service) → Keeps (ended s svc) (cleanup a s svc)
unfolding cleanup
cleanup-Keeps a s svc = ground (arith, depart-Keeps a s (shut s svc))

if_IsSeated :
    (b : Bool) (t u : Service)
    → (b ≡ true → IsSeated t.rooms t.sessions)
    → (b ≡ false → IsSeated u.rooms u.sessions)
    → IsSeated (if b then t else u).rooms (if b then t else u).sessions
if_IsSeated true t u h k = h refl
if_IsSeated false t u h k = k refl

-- The session of a socket that ends leaves its room.
pub cleanup-IsSeated :
    (a : Answers) (s : Session) (svc : Service)
    → IsSeated svc.rooms svc.sessions
    → lookup s.id svc.sessions ≡ some s
    → IsSeated (cleanup a s svc).rooms (cleanup a s svc).sessions
cleanup-IsSeated a s svc wf there =
    IsSeated-Keeps (ended s svc) (cleanup a s svc) (cleanup-Keeps a s svc) (
      if_IsSeated s.closed svc _ (λ _. wf)
        (λ _.
          if_IsSeated (is_empty s.room_id) (shut s svc) (left s svc) (shut-IsSeated s svc wf there)
            (λ _. left-IsSeated s svc wf there)))

pub hang_up-IsSeated :
    (a : Answers) (id : GoString) (svc : Service)
    → IsSeated svc.rooms svc.sessions
    → IsSeated (hang_up a id svc).rooms (hang_up a id svc).sessions
unfolding hang_up
hang_up-IsSeated a id svc wf = elim (Option-cases (lookup id svc.sessions)) [
  | inl gone ↦ rw (gone, hang_up) wf
  | inr (s, there) ↦
      rw (there, hang_up) (cleanup-IsSeated a s svc wf (under_own_id id s svc wf there))
]

pub kick-IsSeated :
    (a : Answers) (room id reason : GoString) (svc : Service)
    → IsSeated svc.rooms svc.sessions
    → IsSeated (kick a room id reason svc).rooms (kick a room id reason svc).sessions
unfolding kick
kick-IsSeated a room id reason svc wf = elim (Option-cases (lookup id (members room svc.rooms))) [
  | inl absent ↦ rw (absent, kick) wf
  | inr (_, present) ↦ elim (Option-cases (lookup id svc.sessions)) [
    | inl gone ↦ rw (present, gone, kick) wf
    | inr (s, there) ↦
        let told = send_error s (lit "kicked") reason svc in
        let k = send_error-Keeps s (lit "kicked") reason svc in
        rw (present, there, kick)
          (cleanup-IsSeated a s told (IsSeated-Keeps svc told k wf)
            (rw (k.1) (under_own_id id s svc wf there)))
  ]
]
