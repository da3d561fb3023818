-- ===== src/Worker/Room/Members/Departed.antt =====
-- What becomes of the dominant speaker when it leaves.
use vks.Common.{◌≡◌, ap, ℕ, arith, ◌∙◌, []}
use vks.Common.GoString.{string_eq}
use vks.Common.Float.{Float64}
use vks.Worker.Asd.{Detector, forget}
use vks.Worker.Room.State.{World}
use vks.Worker.Room.Members.{remove_peer, remove_sip_peer, leave_sip}
use vks.Worker.Room.Members.Histories.{room-remove_peer, room-remove_sip_peer}

module _ {F : Type 0} where
  current-forget : (wall : ℕ) (d : Detector F) → (forget wall d.current d).current ≡ []
  unfolding forget
  current-forget wall d = ground arith

module _ {F : Type 0} (fl : Float64 F) where
  -- RemovePeer of the dominant speaker leaves the room without one; RemoveSIPPeer of it leaves it the
  -- dominant speaker.
  pub speaker_departs :
      (wall : ℕ) (s : World F)
      → ((remove_peer fl wall s.room.det.current s).room.det.current ≡ [])
        × ((remove_sip_peer fl s.room.det.current s).room.det.current ≡ s.room.det.current)
  unfolding leave_sip
  speaker_departs wall s = (
    ap (λ r. r.det.current) (room-remove_peer fl wall s.room.det.current s)
        ∙ current-forget wall s.room.det,
    ap (λ r. r.det.current) (room-remove_sip_peer fl s.room.det.current s),
  )
