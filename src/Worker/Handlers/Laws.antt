-- ===== src/Worker/Handlers/Laws.antt =====
-- A request reaches one room, and only three routes make one.
use vks.Common.{ℕ, ◌≡◌, ◌∙◌, refl, ap, false, Option, none, some, Result, ok, err, arith, ◌==◌}
use vks.Common.GoString.{GoString, GoString-discrete, string_eq}
use vks.Common.Int.{ℤ}
use vks.Common.Float.{Float64}
use vks.Common.Dict.{Dict, lookup-insert_ne}
use vks.Worker.Room.State.{World, SipPeer}
use vks.Worker.Room.Members.{JoinAnswers}
use vks.Worker.Rooms.{Registry, get, put}
use vks.Worker.Rooms.Laws.{get-destroy, get-get_or_create}
use vks.Worker.Handlers.{
  Api, AddPeerReq, AddSipPeerReq, LayoutReq, store, resolve_room_id, destroy_room, handle_add_peer,
  handle_remove_peer, handle_add_sip_peer, handle_remove_sip_peer, handle_update_layout,
  handle_assign_slots, handle_start_recording, handle_stop_recording, join_room, dial_room,
  announce_sip, record_room, hang_up_in, leave_room, update_in, assign_in, stop_in,
  presence_add_sip, presence_remove_sip,
}
use vks.Worker.Handlers.Routes.{
  post_peers, delete_peer, post_sip_peers, delete_sip_peer, put_layout, put_slots, post_recording,
  delete_recording, delete_room, Request, room_of, creates, serve,
}

module _ {F : Type 0} where
  get-store :
      (room other : GoString) (s : World F) (a : Api F)
      → (room == other) ≡ false
      → get other (store room s a).rooms ≡ get other a.rooms
  unfolding get put
  get-store room other s a ne = lookup-insert_ne other room s a.rooms.rooms ne

  rooms-presence_remove_sip :
      (room peer : GoString) (a : Api F) → (presence_remove_sip room peer a).rooms ≡ a.rooms
  unfolding presence_remove_sip
  rooms-presence_remove_sip room peer a = ground arith

  rooms-announce_sip :
      (room : GoString) (in_ : AddSipPeerReq) (answer : Result GoString SipPeer) (a : Api F)
      → (announce_sip room in_ answer a).1.rooms ≡ a.rooms
  unfolding announce_sip presence_add_sip
  rooms-announce_sip room in_ (err e) a = refl
  rooms-announce_sip room in_ (ok sp) a = ground arith

module _ {F : Type 0} (fl : Float64 F) where
  get-join_room :
      (room other : GoString) (in_ : AddPeerReq) (answers : JoinAnswers)
      (found : Result GoString (World F) × Registry F) (a : Api F)
      → (room == other) ≡ false
      → get other found.1 ≡ get other a.rooms
      → get other (join_room fl room in_ answers found a).1.rooms ≡ get other a.rooms
  unfolding join_room
  get-join_room room other in_ answers (err e, rooms) a ne h = h
  get-join_room room other in_ answers (ok s, rooms) a ne h =
      get-store room other _ (record a { rooms = rooms }) ne ∙ h

  get-dial_room :
      (room other : GoString) (in_ : AddSipPeerReq) (channels : Result GoString (ℕ × ℕ))
      (listener : Result GoString SipPeer) (found : Result GoString (World F) × Registry F)
      (a : Api F)
      → (room == other) ≡ false
      → get other found.1 ≡ get other a.rooms
      → get other (dial_room fl room in_ channels listener found a).1.rooms ≡ get other a.rooms
  unfolding dial_room
  get-dial_room room other in_ channels listener (err e, rooms) a ne h = h
  get-dial_room room other in_ channels listener (ok s, rooms) a ne h =
      ap (get other) (rooms-announce_sip room in_ _ _)
      ∙ get-store room other _ (record a { rooms = rooms }) ne
      ∙ h

  get-hang_up_in :
      (room other peer : GoString) (found : Option (World F)) (a : Api F)
      → (room == other) ≡ false
      → get other (hang_up_in fl room peer found a).rooms ≡ get other a.rooms
  unfolding hang_up_in
  get-hang_up_in room other peer none a ne = refl
  get-hang_up_in room other peer (some s) a ne = get-store room other _ a ne

  get-leave_room :
      (wall : ℕ) (room other peer : GoString) (found : Option (World F)) (a : Api F)
      → (room == other) ≡ false
      → get other (leave_room fl wall room peer found a).rooms ≡ get other a.rooms
  unfolding leave_room
  get-leave_room wall room other peer none a ne = refl
  get-leave_room wall room other peer (some s) a ne = get-store room other _ a ne

  get-update_in :
      (room other : GoString) (in_ : Option (LayoutReq F)) (found : Option (World F)) (a : Api F)
      → (room == other) ≡ false
      → get other (update_in fl room in_ found a).1.rooms ≡ get other a.rooms
  unfolding update_in
  get-update_in room other in_ none a ne = refl
  get-update_in room other none (some s) a ne = refl
  get-update_in room other (some in_) (some s) a ne = get-store room other _ a ne

  get-assign_in :
      (room other : GoString) (raw : Option (Dict GoString GoString)) (found : Option (World F))
      (a : Api F)
      → (room == other) ≡ false
      → get other (assign_in fl room raw found a).1.rooms ≡ get other a.rooms
  unfolding assign_in
  get-assign_in room other raw none a ne = refl
  get-assign_in room other none (some s) a ne = refl
  get-assign_in room other (some raw) (some s) a ne = get-store room other _ a ne

module _ {F : Type 0} (fl : Float64 F) (join : GoString → GoString → GoString)
    (clean : GoString → GoString) where
  get-record_room :
      (room other : GoString) (answer : Option GoString)
      (found : Result GoString (World F) × Registry F) (a : Api F)
      → (room == other) ≡ false
      → get other found.1 ≡ get other a.rooms
      → get other (record_room fl join clean room answer found a).1.rooms ≡ get other a.rooms
  unfolding record_room
  get-record_room room other answer (err e, rooms) a ne h = h
  get-record_room room other answer (ok s, rooms) a ne h =
      get-store room other _ (record a { rooms = rooms }) ne ∙ h

  get-stop_in :
      (room other : GoString) (answer : Result GoString (GoString × ℤ)) (found : Option (World F))
      (a : Api F)
      → (room == other) ≡ false
      → get other (stop_in fl room answer found a).1.rooms ≡ get other a.rooms
  unfolding stop_in
  get-stop_in room other answer none a ne = refl
  get-stop_in room other answer (some s) a ne = get-store room other _ a ne

  -- A request leaves every room but its own as it was, whatever it asks and however it fails.
  pub serve_isolated :
      (q : Request F) (a : Api F) (other : GoString)
      → (room_of a q == other) ≡ false
      → get other (serve fl join clean q a).1.rooms ≡ get other a.rooms
  unfolding serve room_of handle_add_peer handle_remove_peer handle_add_sip_peer
      handle_remove_sip_peer handle_update_layout handle_assign_slots handle_start_recording
      handle_stop_recording destroy_room
  serve_isolated (post_peers room none pipe answers) a other ne = refl
  serve_isolated (post_peers room (some in_) pipe answers) a other ne =
      get-join_room fl room other in_ answers _ a ne
        (get-get_or_create fl room other pipe a.rooms ne)
  serve_isolated (delete_peer wall room peer) a other ne =
      get-leave_room fl wall room other peer (get room a.rooms) a ne
  serve_isolated (post_sip_peers alias id none pipe channels listener) a other ne = refl
  serve_isolated (post_sip_peers alias id (some in_) pipe channels listener) a other ne =
      get-dial_room fl (resolve_room_id a alias id) other in_ channels listener _ a ne
        (get-get_or_create fl (resolve_room_id a alias id) other pipe a.rooms ne)
  serve_isolated (delete_sip_peer alias id peer) a other ne =
      ap (get other) (rooms-presence_remove_sip (resolve_room_id a alias id) peer _)
      ∙ get-hang_up_in fl (resolve_room_id a alias id) other peer _ a ne
  serve_isolated (put_layout room in_) a other ne =
      get-update_in fl room other in_ (get room a.rooms) a ne
  serve_isolated (put_slots room raw) a other ne =
      get-assign_in fl room other raw (get room a.rooms) a ne
  serve_isolated (post_recording room pipe answer) a other ne =
      get-record_room room other answer _ a ne (get-get_or_create fl room other pipe a.rooms ne)
  serve_isolated (delete_recording room answer) a other ne =
      get-stop_in room other answer (get room a.rooms) a ne
  serve_isolated (delete_room room) a other ne = ground (arith, get-destroy room other a.rooms)

  -- A request on a room that is not there leaves all rooms as they were, unless it is a join, a dial-in
  -- or the start of a recording.
  pub serve_absent :
      (q : Request F) (a : Api F) (other : GoString)
      → creates q ≡ false
      → get (room_of a q) a.rooms ≡ none
      → get other (serve fl join clean q a).1.rooms ≡ get other a.rooms
  unfolding serve room_of creates handle_remove_peer handle_remove_sip_peer handle_update_layout
      handle_assign_slots handle_stop_recording destroy_room leave_room hang_up_in update_in
      assign_in stop_in
  serve_absent (post_peers room in_ pipe answers) a other h gone = absurd (cc)
  serve_absent (delete_peer wall room peer) a other h gone = rw gone refl
  serve_absent (post_sip_peers alias id in_ pipe channels listener) a other h gone = absurd (cc)
  serve_absent (delete_sip_peer alias id peer) a other h gone =
      ap (get other) (rooms-presence_remove_sip (resolve_room_id a alias id) peer _) ∙ rw gone refl
  serve_absent (put_layout room in_) a other h gone = rw gone refl
  serve_absent (put_slots room raw) a other h gone = rw gone refl
  serve_absent (post_recording room pipe answer) a other h gone = absurd (cc)
  serve_absent (delete_recording room answer) a other h gone = rw gone refl
  serve_absent (delete_room room) a other h gone = elim (GoString-discrete room other) [
    | yes e ↦ ground (arith, get-destroy room other a.rooms, ap (λ id. get id a.rooms) e)
    | no ne ↦ ground (arith, get-destroy room other a.rooms)
  ]
