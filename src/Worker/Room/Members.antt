-- ===== src/Worker/Room/Members.antt =====
-- Who is in a room (room.go: AddPeer, RemovePeer, AddSIPPeer, RemoveSIPPeer, AssignSlots, Roster,
-- notifyRosterAsync, removeID). What Pion, GStreamer and the network answer is an argument.
pub mod Invariant
pub mod Recorded
pub mod Histories
pub mod Departed
use vks.Common.{
  ℕ, suc, Bool, true, false, not, ◌&&◌, List, [], ◌∷◌, ◌++◌, Option, none, some, if◌then◌else◌,
  ◌==◌, Result, ok, err,
}
use vks.Common.GoString.{GoString, lit, string_eq, is_empty}
use vks.Common.Int.{ℤ, pos}
use vks.Common.Float.{Float64}
use vks.Common.Dict.{Dict, lookup, insert, erase}
use vks.Worker.Asd.{forget}
use vks.Worker.Room.Slots.{take_free, release, slot_of, assign_slots, roster_from}
use vks.Worker.Room.State.{
  Room, Peer, SipPeer, RosterEntry, World, Call, pipeline_add, pipeline_remove, pipeline_mute,
  pipeline_overlay, close_peer, close_sip_peer, notify_roster, emit, update,
}
use vks.Worker.Room.Names.{markup_for}
use vks.Worker.Room.Picture.{apply_layout}

-- The first occurrence goes.
unfoldable pub remove_id : List GoString → GoString → List GoString
remove_id [] id = []
remove_id (v ∷ s) id = if v == id then s else v ∷ remove_id s id

-- What the calls of AddPeer answer: an error of peer.New, the channels of Pipeline.AddPeer, the SDP
-- answer of Negotiate.
pub record JoinAnswers : Type 0 where
  pub new_peer : Option GoString
  pub pipeline_add_peer : Result GoString (ℕ × ℕ)
  pub negotiate : Result GoString GoString

abbrev peer_exists : GoString
peer_exists = lit "peer exists"

-- The entries of notifyRosterAsync.
unfoldable pub roster_entries : Dict GoString GoString → Dict ℕ GoString → List RosterEntry
roster_entries names [] = []
roster_entries names ((i, id) ∷ rest) =
    record {
      slot = i;
      peer_id = id;
      display_name = elim (lookup id names) [ none ↦ [] | some name ↦ name ];
    }
    ∷ roster_entries names rest

unfoldable pub roster : {F : Type 0} → Room F → Dict ℕ GoString
roster r = roster_from 0 r.slots

unfoldable pub notify_roster_async : {F : Type 0} → World F → World F
notify_roster_async s =
    if s.room.has_notifier
    then emit (notify_roster s.room.id (roster_entries s.room.display_names (roster s.room))) s
    else s

-- The critical section of AddPeer that enters the peer.
unfoldable pub enter : {F : Type 0} → GoString → GoString → Option (ℕ × ℕ) → Room F → Room F
enter peer name channels r = record r {
  peers = insert peer (record { closed = false }) r.peers;
  video_in = elim channels [ none ↦ r.video_in | some (v, a) ↦ insert peer v r.video_in ];
  audio_in = elim channels [ none ↦ r.audio_in | some (v, a) ↦ insert peer a r.audio_in ];
  join_order = r.join_order ++ peer ∷ [];
  display_names = insert peer name r.display_names;
  slots = take_free peer r.slots;
}

unfoldable pub leave : {F : Type 0} → GoString → Room F → Room F
leave peer r = record r {
  peers = erase peer r.peers;
  video_in = erase peer r.video_in;
  audio_in = erase peer r.audio_in;
  join_order = remove_id r.join_order peer;
  slots = release peer r.slots;
}

-- The critical section of AddSIPPeer, which has no test for a peer of the same name.
unfoldable pub enter_sip : {F : Type 0} → GoString → GoString → SipPeer → Room F → Room F
enter_sip peer name sp r = record r {
  sip_peers = insert peer sp r.sip_peers;
  display_names = insert peer name r.display_names;
  join_order = r.join_order ++ peer ∷ [];
  slots = take_free peer r.slots;
}

unfoldable pub leave_sip : {F : Type 0} → GoString → Room F → Room F
leave_sip peer r = record r {
  sip_peers = erase peer r.sip_peers;
  display_names = erase peer r.display_names;
  slots = release peer r.slots;
  join_order = remove_id r.join_order peer;
}

module _ {F : Type 0} (fl : Float64 F) where
  -- What AddPeer does once the peer is entered.
  unfoldable pub caption : GoString → GoString → World F → World F
  caption peer name s =
      if s.room.sfu
      then s
      else apply_layout fl
          (emit (pipeline_overlay peer (markup_for fl s.room name) s.room.style.font_size) s)

  -- Negotiate, and what follows it.
  unfoldable pub negotiate_peer :
      GoString
      → GoString
      → Option (ℕ × ℕ)
      → Result GoString GoString
      → World F
      → World F × Result GoString GoString
  negotiate_peer peer name channels (ok answer) s =
      (caption peer name (update (enter peer name channels) s), ok answer)
  negotiate_peer peer name channels (err e) s =
      let closed = emit (close_peer peer) s in
      (if s.room.sfu then closed else emit (pipeline_remove peer) closed, err e)

  -- Pipeline.AddPeer, which SFU mode leaves out.
  unfoldable pub connect_pipeline :
      GoString
      → GoString
      → Result GoString (ℕ × ℕ)
      → Result GoString GoString
      → World F
      → World F × Result GoString GoString
  connect_pipeline peer name (ok channels) answer s =
      negotiate_peer peer name (some channels) answer
        (emit (pipeline_add peer s.room.video_codec []) s)
  connect_pipeline peer name (err e) answer s =
      (emit (close_peer peer) (emit (pipeline_add peer s.room.video_codec []) s), err e)

  -- AddPeer as one step: nobody else enters the room between its two critical sections.
  unfoldable pub add_peer :
      GoString → GoString → JoinAnswers → World F → World F × Result GoString GoString
  add_peer peer name answers s = elim (lookup peer s.room.peers) [
    | some _ ↦ (s, err peer_exists)
    | none ↦ elim answers.new_peer [
      | some e ↦ (s, err e)
      | none ↦
          if s.room.sfu
          then negotiate_peer peer name none answers.negotiate s
          else connect_pipeline peer name answers.pipeline_add_peer answers.negotiate s
    ]
  ]

  -- Closing a peer that the room does not have is left out.
  unfoldable pub close_if_there : GoString → Option Peer → World F → World F
  close_if_there peer none s = s
  close_if_there peer (some p) s = emit (close_peer peer) s

  -- RemovePeer; `wall` is the time of the call. It always returns nil.
  unfoldable pub remove_peer : ℕ → GoString → World F → World F
  remove_peer wall peer s =
      let gone = update (λ r. record (leave peer r) { det = forget wall peer r.det }) s in
      let closed = close_if_there peer (lookup peer s.room.peers) gone in
      if s.room.sfu then closed else apply_layout fl (emit (pipeline_remove peer) closed)

  -- What NewPeer of sipbridge answers, and what follows it.
  unfoldable pub listen_sip :
      GoString → GoString → Result GoString SipPeer → World F → World F × Result GoString SipPeer
  listen_sip peer name (err e) s = (emit (pipeline_remove peer) s, err e)
  listen_sip peer name (ok sp) s =
      (notify_roster_async (apply_layout fl (update (enter_sip peer name sp) s)), ok sp)

  -- AddSIPPeer. A SIP peer is always connected to the pipeline, as PCMU sound and H.264 picture, and is
  -- muted in the mix; a failure to mute is only logged.
  unfoldable pub add_sip_peer :
      GoString
      → GoString
      → Result GoString (ℕ × ℕ)
      → Result GoString SipPeer
      → World F
      → World F × Result GoString SipPeer
  add_sip_peer peer name (err e) listener s =
      (emit (pipeline_add peer (lit "h264") (lit "pcmu")) s, err e)
  add_sip_peer peer name (ok channels) listener s =
      listen_sip peer name listener
        (emit (pipeline_mute peer true) (emit (pipeline_add peer (lit "h264") (lit "pcmu")) s))

  unfoldable pub close_sip_if_there : GoString → Option SipPeer → World F → World F
  close_sip_if_there peer none s = s
  close_sip_if_there peer (some p) s = emit (close_sip_peer peer) s

  unfoldable pub remove_sip_peer : GoString → World F → World F
  remove_sip_peer peer s =
      let closed =
        close_sip_if_there peer (lookup peer s.room.sip_peers) (update (leave_sip peer) s) in
      notify_roster_async (apply_layout fl (emit (pipeline_remove peer) closed))

  unfoldable pub assign : Dict ℤ GoString → World F → World F
  assign assignment s =
      let assigned = update (λ r. record r { slots = assign_slots assignment r.slots }) s in
      if s.room.sfu then assigned else apply_layout fl assigned
