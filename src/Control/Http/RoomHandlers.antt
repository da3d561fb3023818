-- ===== src/Control/Http/RoomHandlers.antt =====
-- services/control-plane/internal/adapters/httpapi/handlers_rooms.go, but for List
use vks.Common.{Bool, [], ◌∷◌, Option, none, some, if◌then◌else◌, ◌==◌}
use vks.Common.GoString.{GoString, lit, string_eq, is_empty}
use vks.Common.Int.{ℤ, ℤ_eq}
use vks.Common.Scan.{scan_int}
use vks.Common.Dict.{Dict, insert}
use vks.Control.Domain.{Layout}
use vks.Control.Store.{Value, Store, Env}
use vks.Control.Rooms.{
  RoomView, CreateRoomInput, app_error, Done, create, update, delete, set_locked,
}
use vks.Control.Rooms
use vks.Control.Rooms.Live.{update_layout, participants, slots, assign_slots, kick}
use vks.Control.Http.{
  empty, room, layout, slot_map, people, Response, bad, reply, replied, with_id, with_json,
}

-- The column that a field of the request is
abbrev column_of : GoString → Option GoString
column_of k =
    if k == lit "name"
    then some k
    else if k == lit "description"
    then some k
    else if k == lit "mode"
    then some k
    else if k == lit "maxParticipants"
    then some (lit "max_participants")
    else if k == lit "waitingRoom"
    then some (lit "waiting_room")
    else if k == lit "defaultLayout"
    then some (lit "default_layout")
    else none

-- The white list of the handler Update
unfoldable pub whitelisted : Dict GoString Value → Dict GoString Value → Dict GoString Value
whitelisted [] set = set
whitelisted ((k, v) ∷ raw) set =
    whitelisted raw (elim (column_of k) [ none ↦ set | some c ↦ insert c v set ])

-- The loop of the handler Slots: a key that is no number is skipped.
unfoldable pub numbered : Dict GoString GoString → Dict ℤ GoString → Dict ℤ GoString
numbered [] m = m
numbered ((k, v) ∷ raw) m = numbered raw (elim (scan_int k) [ none ↦ m | some i ↦ insert i v m ])

module _ {F : Type 0} where
  unfoldable pub room_create :
      Env F → GoString → Layout F → Option (CreateRoomInput F) → Store F → Response F × Store F
  unfolding with_json replied create
  room_create e actor grid in_ =
      with_json in_ (λ input s. replied 201 room (create e actor grid input s))

  unfoldable pub room_get : Env F → GoString → Store F → Response F × Store F
  unfolding with_id reply
  room_get e text = with_id e text (λ id s. (reply 200 room (Rooms.get e id s), s))

  unfoldable pub room_update :
      Env F → GoString → GoString → Option (Dict GoString Value) → Store F → Response F × Store F
  unfolding with_id with_json replied update whitelisted
  room_update e actor text in_ =
      with_id e text
        (λ id. with_json in_ (λ raw s. replied 200 room (update e actor id (whitelisted raw []) s)))

  unfoldable pub room_delete : Env F → GoString → GoString → Store F → Response F × Store F
  unfolding with_id replied delete
  room_delete e actor text = with_id e text (λ id s. replied 204 (λ _. empty) (delete e actor id s))

  unfoldable pub set_lock : Env F → GoString → GoString → Bool → Store F → Response F × Store F
  unfolding with_id replied set_locked
  set_lock e actor text locked =
      with_id e text (λ id s. replied 204 (λ _. empty) (set_locked e actor id locked s))

  unfoldable pub get_slots : Env F → GoString → Store F → Response F × Store F
  unfolding with_id replied slots
  get_slots e text = with_id e text (λ id s. replied 200 slot_map (slots e id s))

  unfoldable pub put_slots :
      Env F → GoString → GoString → Option (Dict GoString GoString) → Store F → Response F × Store F
  unfolding with_id with_json replied assign_slots numbered
  put_slots e actor text in_ = with_id e text (λ id.
      with_json in_
        (λ raw s. replied 204 (λ _. empty) (assign_slots e actor id (numbered raw []) s)))

  unfoldable pub put_layout :
      Env F → GoString → GoString → Option (Layout F) → Store F → Response F × Store F
  unfolding with_id with_json replied update_layout
  put_layout e actor text in_ =
      with_id e text
        (λ id. with_json in_ (λ l s. replied 200 (λ _. layout l) (update_layout e actor id l s)))

  unfoldable pub get_participants : Env F → GoString → Store F → Response F × Store F
  unfolding with_id replied participants
  get_participants e text = with_id e text (λ id s. replied 200 people (participants e id s))

  unfoldable pub room_kick : Env F → GoString → GoString → GoString → Store F → Response F × Store F
  unfolding with_id replied kick
  room_kick e actor text peer = with_id e text (λ id s.
      if is_empty peer
      then (bad (lit "peerId required"), s)
      else replied 204 (λ _. empty) (kick e actor id peer s))
