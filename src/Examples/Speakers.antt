-- ===== src/Examples/Speakers.antt =====
-- The active speaker, the names on the picture, and who hears whom.
use vks.Common.{
  ◌≡◌, ◌≢◌, refl, true, false, [], ◌∷◌, none, arith, replicate, if◌then◌else◌, ◌==◌, ◌⊎◌, inr,
}
use vks.Common.GoString.{GoString, GoString-discrete, lit, string_eq}
use vks.Common.Int.{pos, negsuc}
use vks.Common.Dict.{lookup, insert}
use native.Mathlib.Decide.{ℕ_discrete}
use vks.Worker.Asd.{
  Detector, Sample, push, time_of, loudest, louder, heard, settle, effective_level,
}
use vks.Worker.Asd
use vks.Worker.Asd.Loudest.{winner, Quieter, Found, push_speaker, push_keeps}
use vks.Worker.Room.Slots.{slot_of}
use vks.Worker.Room.State.{Room, World, new, Options}
use vks.Worker.Room.Forward.{forward_audio, forward_video}
use vks.Worker.Room.Forward.MixMinus.{
  writes_to, listening, OnTrack, forward_audio_lem, forward_video_dropped,
}
use vks.Worker.Room.Members.{remove_peer, remove_sip_peer}
use vks.Worker.Room.Members.Departed.{speaker_departs}
use vks.Examples.Numbers.{Num, exact, num, num-IsStrictOrder}
use vks.Examples.Slots.{alice, bob}

abbrev quiet : Detector Num
quiet = Asd.new (exact (negsuc 44)) 800_000_000

abbrev loud : Sample Num
loud = record { peer_id = alice; dbfs = exact (negsuc 9); when = 5 }

push_speaker_example :
    let best = winner num 1_000_000_000 loud quiet in
    let table = (push num 1_000_000_000 loud quiet).0.levels in
    (best.0 ≡ alice)
    × (alice ≢ quiet.current)
    × ((push num 1_000_000_000 loud quiet).0.current ≡ alice)
    × (num.lt best.1 quiet.threshold_dbfs ≡ false)
    × Quieter num (time_of num 1_000_000_000 loud) best.1 table
    × ((best ≡ ([], num.lowest)) ⊎ Found num (time_of num 1_000_000_000 loud) table best)
unfolding push loudest louder heard settle effective_level Asd.new GoString-discrete ℕ_discrete
    insert
push_speaker_example = push_speaker num 1_000_000_000 loud quiet alice num-IsStrictOrder refl

-- alice has just become the speaker, and bob is loud.
abbrev just_now : Detector Num
just_now = record quiet { current = alice; current_since = 1_000_000_000 }

push_keeps_example :
    ((push num 1_200_000_000 (record loud { peer_id = bob }) just_now).1 ≡ none)
    × ((push num 1_200_000_000 (record loud { peer_id = bob }) just_now).0.current
        ≡ just_now.current)
unfolding Asd.new
push_keeps_example =
    push_keeps num 1_200_000_000 (record loud { peer_id = bob }) just_now
      (inr (λ e. absurd (omega arith), omega arith))

abbrev pub options : Options
options = record {
  id = lit "r";
  video_codec = lit "vp8";
  width = pos 1280;
  height = pos 720;
  sfu = true;
  has_notifier = false;
}

-- alice in slot 0 and bob in slot 1.
abbrev pair : Room Num
pair = record (new num options) {
  peers = (alice, record { closed = false }) ∷ (bob, record { closed = false }) ∷ [];
  join_order = alice ∷ bob ∷ [];
  slots = alice ∷ bob ∷ replicate 18 [];
}

audio_example :
    OnTrack 1 (lit "x") (forward_audio bob (lit "x") pair)
    × ((q : GoString)
        → writes_to q (forward_audio bob (lit "x") pair)
          ≡ (if q == bob then 0 else listening q pair.peers))
unfolding GoString-discrete ℕ_discrete slot_of lookup
audio_example = forward_audio_lem bob (lit "x") pair 1 (refl, (refl, tt)) refl refl

video_example : forward_video bob (lit "x") pair ≡ []
unfolding GoString-discrete ℕ_discrete slot_of
video_example = forward_video_dropped bob (lit "x") pair 0 refl

abbrev talking : World Num
talking = record { room = record pair { det = just_now }; calls = [] }

departs_example :
    ((remove_peer num 7 alice talking).room.det.current ≡ [])
    × ((remove_sip_peer num alice talking).room.det.current ≡ alice)
departs_example = speaker_departs num 7 talking
