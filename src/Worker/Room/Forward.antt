-- ===== src/Worker/Room/Forward.antt =====
-- RTP packets on their way through a room (room.go: OnVideoRTP, OnAudioRTP, forwardVideo, forwardAudio,
-- broadcastVideo, broadcastAudio, egressLoop, asdLoop; peer.go: WriteVideoSlot, WriteAudioSlot, Close).
pub mod MixMinus
use vks.Common.{
  ℕ, suc, ◌+◌, Bool, true, false, not, ◌&&◌, ◌||◌, List, [], ◌∷◌, ◌++◌, map, Option, none, some,
  if◌then◌else◌, ◌==◌, ltb,
}
use vks.Common.GoString.{GoString, string_eq, is_empty}
use vks.Common.Float.{Float64}
use vks.Common.Dict.{Dict, lookup, insert}
use vks.Worker.Asd.{Detector, Sample, push}
use vks.Worker.Room.Slots.{slot_of, slot_count}
use vks.Worker.Room.State.{Room, Peer, SipPeer, World}
use vks.Worker.Room.Picture.{apply_layout}

-- A packet written to a track of a participant.
pub record Write : Type 0 where
  pub to : GoString
  pub slot : ℕ
  pub pkt : GoString

-- peer.VideoSlotCount
abbrev pub video_slot_count : ℕ
video_slot_count = 1

-- Neither a closed peer nor a track that it does not have is written to, and neither is an error.
unfoldable pub write_slot : ℕ → GoString → Peer → ℕ → GoString → List Write
write_slot tracks to p slot pkt =
    if p.closed || not (ltb slot tracks)
    then []
    else record { to = to; slot = slot; pkt = pkt } ∷ []

abbrev pub write_video_slot : GoString → Peer → ℕ → GoString → List Write
write_video_slot = write_slot video_slot_count

abbrev pub write_audio_slot : GoString → Peer → ℕ → GoString → List Write
write_audio_slot = write_slot slot_count

-- Close of a peer, which the connection itself also calls when it fails.
unfoldable pub close : Peer → Peer
close p = record { closed = true }

-- The loop of forwardVideo and forwardAudio: every peer but the sender.
unfoldable pub to_others : ℕ → GoString → ℕ → GoString → Dict GoString Peer → List Write
unfolding write_slot
to_others tracks sender slot pkt [] = []
to_others tracks sender slot pkt ((id, p) ∷ rest) =
    (if id == sender then [] else write_slot tracks id p slot pkt)
    ++ to_others tracks sender slot pkt rest

unfoldable pub to_all : ℕ → GoString → Dict GoString Peer → List Write
to_all tracks pkt [] = []
to_all tracks pkt ((id, p) ∷ rest) = write_slot tracks id p 0 pkt ++ to_all tracks pkt rest

-- A packet of somebody without a slot goes nowhere.
unfoldable pub forward : {F : Type 0} → ℕ → GoString → GoString → Room F → List Write
forward tracks sender pkt r = elim (slot_of sender r.slots) [
  | none ↦ []
  | some slot ↦ to_others tracks sender slot pkt r.peers
]

unfoldable pub forward_video : {F : Type 0} → GoString → GoString → Room F → List Write
unfolding forward
forward_video = forward video_slot_count

unfoldable pub forward_audio : {F : Type 0} → GoString → GoString → Room F → List Write
unfolding forward
forward_audio = forward slot_count

-- What a packet leads to: writes to tracks, and a channel of the pipeline to which it is offered (the
-- `select` drops it if the channel is full).
pub record Routed : Type 0 where
  pub writes : List Write
  pub offered : Option ℕ

unfoldable pub on_video_rtp : {F : Type 0} → GoString → GoString → Room F → Routed
unfolding forward_video
on_video_rtp peer pkt r =
    if r.sfu
    then record { writes = forward_video peer pkt r; offered = none }
    else record { writes = []; offered = lookup peer r.video_in }

unfoldable pub on_audio_rtp : {F : Type 0} → GoString → GoString → Room F → Routed
unfolding forward_audio
on_audio_rtp peer pkt r = record {
  writes = forward_audio peer pkt r;
  offered = if r.sfu then none else lookup peer r.audio_in;
}

-- The mixed picture, to track 0 of everyone; the counters are left out.
unfoldable pub broadcast_video : {F : Type 0} → GoString → Room F → List Write
unfolding to_all write_slot
broadcast_video pkt r = if is_empty pkt then [] else to_all video_slot_count pkt r.peers

unfoldable pub broadcast_audio : {F : Type 0} → GoString → Room F → List Write
unfolding to_all write_slot
broadcast_audio pkt r = if is_empty pkt then [] else to_all slot_count pkt r.peers

-- One round of egressLoop: what the pipeline puts out.
pub data Egress : Type 0 where
  video_out audio_out sip_video_out sip_audio_out : GoString → Egress

pub data Sent : Type 0 where
  to_track : Write → Sent
  to_sip_audio to_sip_video : GoString → GoString → Sent

abbrev to_sip : (GoString → GoString → Sent) → GoString → Dict GoString SipPeer → List Sent
to_sip kind pkt = map (λ (id, _). kind id pkt)

-- The Opus mix goes nowhere.
unfoldable pub egress : {F : Type 0} → Egress → Room F → List Sent
egress (video_out pkt) r = map to_track (broadcast_video pkt r)
egress (audio_out pkt) r = []
egress (sip_video_out pkt) r = to_sip to_sip_video pkt r.sip_peers
egress (sip_audio_out pkt) r = to_sip to_sip_audio pkt r.sip_peers

module _ {F : Type 0} (fl : Float64 F) where
  -- One round of asdLoop: the layout is applied anew when the speaker changes.
  unfoldable pub asd_round : ℕ → GoString → F → World F → World F
  asd_round wall peer dbfs s =
      let (det, changed) =
        push fl wall (record { peer_id = peer; dbfs = dbfs; when = wall }) s.room.det in
      let told = record s { room = record s.room { det = det } } in
      elim changed [ none ↦ told | some _ ↦ apply_layout fl told ]
