-- ===== src/Worker/Handlers.antt =====
-- services/media-worker/internal/httpapi/handlers.go: the HTTP interface of a worker. A request body is
-- `none` if it is not valid JSON; what Pion, GStreamer, the network and Redis answer are arguments.
pub mod Requests
pub mod Laws
pub mod Routes
unfoldable pub use Requests.*
use Prim.Native.Nat.{ℕ, zero, suc, ◌+◌, ◌-◌, ◌*◌, ◌^◌}
use mathlib.Core.Option
use vks.Common.{
  Bool, true, false, not, ◌&&◌, ◌||◌, List, [], ◌∷◌, ◌++◌, map, Option, none, some, Result, ok, err,
  if◌then◌else◌, ◌==◌, ℕ_eq, leb,
}
use vks.Common.GoString.{GoString, lit, string_eq, is_empty, itoa}
use vks.Common.Scan.{scan_int}
use vks.Common.Int.{ℤ, pos, negsuc, ℤ_eq}
use vks.Common.Float.{Float64}
use vks.Common.Dict.{Dict, lookup, insert}
use vks.Worker.Layout.{Mode, mode_custom}
use vks.Worker.Pipelines.{Answers}
use vks.Worker.Room.State.{World, SipPeer, CustomCell}
use vks.Worker.Room.Members.{
  JoinAnswers, add_peer, remove_peer, add_sip_peer, remove_sip_peer, assign, roster,
}
use vks.Worker.Room.Picture.{set_layout, set_custom_layout}
use vks.Worker.Room.Names.{set_show_names, set_name_style}
use vks.Worker.Room.Recording.{Snapshot, start_recording, stop_recording}
use vks.Worker.Rooms.{Registry, get, get_or_create, put, destroy, count, snapshots}

module _ {F : Type 0} (fl : Float64 F) where
  -- addPeer, once the room is there.
  unfoldable pub join_room :
      GoString
      → AddPeerReq
      → JoinAnswers
      → Result GoString (World F) × Registry F
      → Api F
      → Response × Api F
  join_room room in_ answers (err e, rooms) a = (internal_error e, record a { rooms = rooms })
  join_room room in_ answers (ok s, rooms) a =
      let (s', answer) = add_peer fl in_.peer_id in_.display_name answers s in
      (
        elim answer [
          | err e ↦ internal_error e
          | ok sdp ↦ record { code = 200; body = sdp_answer sdp }
        ],
        store room s' (record a { rooms = rooms }),
      )

  unfoldable pub handle_add_peer :
      GoString → Option AddPeerReq → Answers → JoinAnswers → Api F → Response × Api F
  handle_add_peer room none pipe answers a = (bad_json, a)
  handle_add_peer room (some in_) pipe answers a =
      join_room room in_ answers (get_or_create fl room pipe a.rooms) a

  unfoldable pub dial_room :
      GoString
      → AddSipPeerReq
      → Result GoString (ℕ × ℕ)
      → Result GoString SipPeer
      → Result GoString (World F) × Registry F
      → Api F
      → Response × Api F
  dial_room room in_ channels listener (err e, rooms) a =
      (internal_error e, record a { rooms = rooms })
  dial_room room in_ channels listener (ok s, rooms) a =
      let (s', answer) = add_sip_peer fl in_.peer_id in_.display_name channels listener s in
      announce_sip room in_ answer (store room s' (record a { rooms = rooms }))

  unfoldable pub handle_add_sip_peer :
      Option GoString
      → GoString
      → Option AddSipPeerReq
      → Answers
      → Result GoString (ℕ × ℕ)
      → Result GoString SipPeer
      → Api F
      → Response × Api F
  handle_add_sip_peer alias id none pipe channels listener a = (bad_json, a)
  handle_add_sip_peer alias id (some in_) pipe channels listener a =
      let room = resolve_room_id a alias id in
      dial_room room in_ channels listener (get_or_create fl room pipe a.rooms) a

  unfoldable pub hang_up_in : GoString → GoString → Option (World F) → Api F → Api F
  hang_up_in room peer none a = a
  hang_up_in room peer (some s) a = store room (remove_sip_peer fl peer s) a

  unfoldable pub handle_remove_sip_peer :
      Option GoString → GoString → GoString → Api F → Response × Api F
  handle_remove_sip_peer alias id peer a =
      let room = resolve_room_id a alias id in
      (no_content, presence_remove_sip room peer (hang_up_in room peer (get room a.rooms) a))

  unfoldable pub leave_room : ℕ → GoString → GoString → Option (World F) → Api F → Api F
  leave_room wall room peer none a = a
  leave_room wall room peer (some s) a = store room (remove_peer fl wall peer s) a

  unfoldable pub handle_remove_peer : ℕ → GoString → GoString → Api F → Response × Api F
  handle_remove_peer wall room peer a = (no_content, leave_room wall room peer (get room a.rooms) a)

  -- The three changes of updateLayout: the picture, the names, their style.
  unfoldable pub change_layout : LayoutReq F → World F → World F
  change_layout in_ s = elim in_.cells [
    | [] ↦ set_layout fl in_.mode s
    | c ∷ cs ↦
        if in_.mode == mode_custom
        then set_custom_layout fl (c ∷ cs) s
        else set_layout fl in_.mode s
  ]

  unfoldable pub change_names : LayoutReq F → World F → World F
  change_names in_ s = elim in_.show_names [ none ↦ s | some on ↦ set_show_names fl on s ]

  unfoldable pub is_some {ℓ} : {A : Type ℓ} → Option A → Bool
  is_some none = false
  is_some (some _) = true

  unfoldable pub change_style : LayoutReq F → World F → World F
  change_style in_ s =
      if is_some in_.name_bg_alpha
        || is_some in_.name_bg_color
        || is_some in_.name_font_size
        || is_some in_.name_font_color
      then set_name_style fl in_.name_bg_alpha in_.name_bg_color in_.name_font_size
          in_.name_font_color s
      else s

  unfoldable pub update_in :
      GoString → Option (LayoutReq F) → Option (World F) → Api F → Response × Api F
  update_in room in_ none a = (no_room, a)
  update_in room none (some s) a = (bad_json, a)
  update_in room (some in_) (some s) a =
      (no_content, store room (change_style in_ (change_names in_ (change_layout in_ s))) a)

  unfoldable pub handle_update_layout : GoString → Option (LayoutReq F) → Api F → Response × Api F
  handle_update_layout room in_ a = update_in room in_ (get room a.rooms) a

  unfoldable pub assign_in :
      GoString → Option (Dict GoString GoString) → Option (World F) → Api F → Response × Api F
  assign_in room raw none a = (no_room, a)
  assign_in room none (some s) a = (bad_json, a)
  assign_in room (some raw) (some s) a =
      (no_content, store room (assign fl (parse_assignment raw []) s) a)

  unfoldable pub handle_assign_slots :
      GoString → Option (Dict GoString GoString) → Api F → Response × Api F
  handle_assign_slots room raw a = assign_in room raw (get room a.rooms) a

  -- The directory that startRecording hands over, without filepath.Clean.
  abbrev recording_dir_of : Api F → GoString
  recording_dir_of a = if is_empty a.recording_dir then lit "/data/recordings" else a.recording_dir

  unfoldable pub record_room :
      (GoString → GoString → GoString)
      → (GoString → GoString)
      → GoString
      → Option GoString
      → Result GoString (World F) × Registry F
      → Api F
      → Response × Api F
  record_room join clean room answer (err e, rooms) a =
      (internal_error e, record a { rooms = rooms })
  record_room join clean room answer (ok s, rooms) a =
      let (s', result) = start_recording join (clean (recording_dir_of a)) answer s in
      (
        elim result [ err e ↦ internal_error e | ok p ↦ record { code = 200; body = path p } ],
        store room s' (record a { rooms = rooms }),
      )

  -- `join` and `clean` are filepath.Join and filepath.Clean.
  unfoldable pub handle_start_recording :
      (GoString → GoString → GoString)
      → (GoString → GoString)
      → GoString
      → Answers
      → Option GoString
      → Api F
      → Response × Api F
  handle_start_recording join clean room pipe answer a =
      record_room join clean room answer (get_or_create fl room pipe a.rooms) a

  unfoldable pub stop_in :
      GoString → Result GoString (GoString × ℤ) → Option (World F) → Api F → Response × Api F
  stop_in room answer none a = (no_room, a)
  stop_in room answer (some s) a =
      let (s', result) = stop_recording answer s in
      (
        elim result [
          | err e ↦ internal_error e
          | ok (p, size) ↦ record { code = 200; body = path_size p size }
        ],
        store room s' a,
      )

  unfoldable pub handle_stop_recording :
      GoString → Result GoString (GoString × ℤ) → Api F → Response × Api F
  handle_stop_recording room answer a = stop_in room answer (get room a.rooms) a
