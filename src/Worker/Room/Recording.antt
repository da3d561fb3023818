-- ===== src/Worker/Room/Recording.antt =====
-- Recording, closing and the summary of a room (room.go: StartRecording, StopRecording, Close,
-- Snapshot). `join` stands for filepath.Join.
use vks.Common.{
  ℕ, ◌≡◌, ◌∙◌, refl, sym, Bool, true, false, [], ◌∷◌, ◌++◌, map, Option, none, some, Bool-cases,
  inl, inr, ap, if◌then◌else◌, Result, ok, err, length,
}
use mathlib.Core.List.{append_assoc, append-nil}
use vks.Common.GoString.{GoString, lit}
use vks.Common.Int.{ℤ, pos}
use vks.Common.Dict.{Dict}
use vks.Worker.Room.State.{
  Room, Peer, World, pipeline_start_recording, pipeline_stop_recording, pipeline_stop, close_peer,
  panics, emit, update,
}

pub record Snapshot : Type 0 where
  pub id : GoString
  pub participants : ℕ
  pub layout : GoString
  pub recording : Bool

module _ {F : Type 0} where
  -- What Pipeline.StartRecording answers, and what follows it.
  abbrev pub started : GoString → Option GoString → World F → World F × Result GoString GoString
  started path (some e) s = (s, err e)
  started path none s = (update (λ r. record r { recording = true; record_path = path }) s, ok path)

  unfoldable pub start_recording :
      (GoString → GoString → GoString)
      → GoString
      → Option GoString
      → World F
      → World F × Result GoString GoString
  start_recording join dir answer s =
      if s.room.recording
      then (s, ok s.room.record_path)
      else let path = join dir (s.room.id ++ lit ".mp4") in
        started path answer (emit (pipeline_start_recording path) s)

  -- The answer of the pipeline is passed on; the flag falls even if that is an error.
  unfoldable pub stop_recording :
      Result GoString (GoString × ℤ) → World F → World F × Result GoString (GoString × ℤ)
  stop_recording answer s =
      if s.room.recording
      then (update (λ r. record r { recording = false }) (emit pipeline_stop_recording s), answer)
      else (s, ok ([], pos 0))

  unfoldable pub close_all : Dict GoString Peer → World F → World F
  close_all [] s = s
  close_all ((id, p) ∷ rest) s = close_all rest (emit (close_peer id) s)

  -- Close of a room that is closed closes stopEgress again, which panics. Else the error of Pipeline.Stop
  -- is passed on.
  unfoldable pub close : World F → World F
  unfolding close_all
  close s =
      if s.room.stopped
      then emit panics s
      else emit pipeline_stop
          (close_all s.room.peers (update (λ r. record r { stopped = true; peers = [] }) s))

  unfoldable pub snapshot : Room F → Snapshot
  snapshot r = record {
    id = r.id;
    participants = length r.peers;
    layout = r.mode;
    recording = r.recording;
  }

  -- Of two starts in a row the second asks nothing of the pipeline and gives the path of the first.
  pub start_recording_twice :
      (join : GoString → GoString → GoString) (dir dir' : GoString) (answer' : Option GoString)
      (s : World F)
      → let first = start_recording join dir none s in
        start_recording join dir' answer' first.0 ≡ (first.0, first.1)
  unfolding start_recording
  start_recording_twice join dir dir' answer' s = elim (Bool-cases s.room.recording) [
    | inl on ↦ simp on
    | inr off ↦ simp off
  ]

  calls-close_all :
      (d : Dict GoString Peer) (s : World F)
      → (close_all d s).calls ≡ s.calls ++ map (λ p. close_peer p.0) d
  unfolding close_all
  calls-close_all [] s = sym (append-nil s.calls)
  calls-close_all ((id, p) ∷ rest) s =
      calls-close_all rest (emit (close_peer id) s) ∙ append_assoc s.calls (close_peer id ∷ []) _

  room-close_all : (d : Dict GoString Peer) (s : World F) → (close_all d s).room ≡ s.room
  unfolding close_all
  room-close_all [] s = refl
  room-close_all ((id, p) ∷ rest) s = room-close_all rest (emit (close_peer id) s)

  calls-close :
      (s : World F)
      → s.room.stopped ≡ false
      → (close s).calls ≡ s.calls ++ (map (λ p. close_peer p.0) s.room.peers ++ pipeline_stop ∷ [])
  unfolding close
  calls-close s open_ =
      rw (open_, close)
        (ap (λ cs. cs ++ pipeline_stop ∷ []) (calls-close_all s.room.peers _)
          ∙ append_assoc s.calls (map (λ p. close_peer p.0) s.room.peers) (pipeline_stop ∷ []))

  room-close :
      (s : World F)
      → s.room.stopped ≡ false
      → (close s).room ≡ record s.room { stopped = true; peers = [] }
  unfolding close
  room-close s open_ =
      rw (open_, close)
        (room-close_all s.room.peers (update (λ r. record r { stopped = true; peers = [] }) s))

  -- The first Close of a room shuts every WebRTC peer's connection and then the pipeline, and asks
  -- nothing else: the SIP peers of the room stay in its table, and their sockets open. A second Close
  -- panics before anything else.
  pub close_lem :
      (s : World F)
      → s.room.stopped ≡ false
      → ((close s).calls
          ≡ s.calls ++ (map (λ p. close_peer p.0) s.room.peers ++ pipeline_stop ∷ []))
        × ((close s).room.peers ≡ [])
        × ((close s).room.sip_peers ≡ s.room.sip_peers)
        × (close (close s) ≡ emit panics (close s))
  close_lem s open_ = (
    calls-close s open_,
    ap (λ r. r.peers) (room-close s open_),
    ap (λ r. r.sip_peers) (room-close s open_),
    closed_twice (close s) (ap (λ r. r.stopped) (room-close s open_)),
  )
    where
      closed_twice : (t : World F) → t.room.stopped ≡ true → close t ≡ emit panics t
      closed_twice t closed = unfold close in rw closed refl
