-- ===== src/Worker/Compositor.antt =====
-- services/media-worker/internal/pipeline/pipeline_gst.go: what a running pipeline keeps of its peers,
-- its pads, its overlays and its recording. An element is the
-- properties that the code has set on it, whether GStreamer took them or not.
pub mod Placing
use vks.Common.{
  ℕ, Bool, true, false, not, ◌&&◌, ◌||◌, ◌+◌, ◌-◌, ◌%◌, ◌^◌, ltb, leb, ℕ_eq, zero, suc, List, [],
  ◌∷◌, ◌++◌, map, length, Option, none, some, Result, ok, err, if◌then◌else◌, ◌==◌,
}
use vks.Common.GoString.{GoString, lit, string_eq, is_empty}
use vks.Common.GoString
use vks.Common.Int.{ℤ, pos, negsuc, ltb_ℤ}
use vks.Common.Dict.{Dict, lookup, insert, erase}
use vks.Worker.Layout.{Cell}

-- A sink pad of the compositor
pub record Pad : Type 0 where
  pub xpos : ℤ
  pub ypos : ℤ
  pub width : ℤ
  pub height : ℤ
  pub zorder : ℕ

-- The textoverlay of a peer
pub record Overlay : Type 0 where
  pub text : GoString
  pub use_markup : Bool
  pub font_desc : GoString

-- peerBranch, all of whose elements are there behind AddPeer
pub record Branch : Type 0 where
  pub video_pad : Pad
  pub muted : Bool
  pub overlay : Overlay

-- gstPipeline; a placeholder pad may be missing. `location` and the valves are those of the recording.
pub record Pipeline : Type 0 where
  pub placeholders : List (Option Pad)
  pub peers : Dict GoString Branch
  pub closed : Bool
  pub has_recorder : Bool
  pub location : GoString
  pub drop : Bool
  pub rec_running : Bool
  pub rec_path : GoString

-- `uint(10 + z)`, which wraps around for a z below -10
unfoldable pub zorder_of : ℤ → ℕ
zorder_of (pos n) = (10 + n) % 2 ^ 64
zorder_of (negsuc n) = if ltb n 10 then 9 - n else 2 ^ 64 - (n - 9)

-- Step 1 of UpdateLayout at a placeholder
abbrev pub hidden : Pad → Pad
hidden p = record p { xpos = negsuc 9998; ypos = negsuc 9998; width = pos 1; height = pos 1 }

unfoldable pub hide_all : List (Option Pad) → List (Option Pad)
hide_all [] = []
hide_all (none ∷ ps) = none ∷ hide_all ps
hide_all (some p ∷ ps) = some (hidden p) ∷ hide_all ps

-- `p.placeholderPads[i]` set to the pad, where it is not nil
unfoldable pub put_pad : ℕ → Pad → List (Option Pad) → List (Option Pad)
put_pad i q [] = []
put_pad zero q (none ∷ ps) = none ∷ ps
put_pad zero q (some p ∷ ps) = some q ∷ ps
put_pad (suc i) q (p ∷ ps) = p ∷ put_pad i q ps

-- `s[:8]` in a message is out of range for a shorter text.
abbrev pub is_short : GoString → Bool
is_short s = ltb (length s) 8

-- `int` of a float64 is a parameter.
module _ {F : Type 0} (int : F → ℤ) where
  abbrev pub cell_pad : ℕ → Cell F → Pad
  cell_pad z c = record {
    xpos = int c.x;
    ypos = int c.y;
    width = int c.w;
    height = int c.h;
    zorder = z;
  }

  -- The placeholder of a cell
  unfoldable pub place_slot : Cell F → ℤ → List (Option Pad) → List (Option Pad)
  unfolding put_pad
  place_slot c (negsuc i) ps = ps
  place_slot c (pos i) ps = if ltb i 20 then put_pad i (cell_pad 5 c) ps else ps

  -- The pad of the peer of a cell; `none` is a panic.
  unfoldable pub place_peer : Cell F → Dict GoString Branch → Option (Dict GoString Branch)
  unfolding zorder_of
  place_peer c peers = if is_empty c.peer_id then some peers else elim (lookup c.peer_id peers) [
    | none ↦ if is_short c.peer_id then none else some peers
    | some b ↦ some (insert c.peer_id (record b { video_pad = cell_pad (zorder_of c.z) c }) peers)
  ]

  -- Step 2 of UpdateLayout
  unfoldable pub apply_cells : List (Cell F) → Pipeline → Option Pipeline
  unfolding place_slot place_peer
  apply_cells [] p = some p
  apply_cells (c ∷ cs) p = elim (place_peer c p.peers) [
    | none ↦ none
    | some peers ↦
        apply_cells cs
          (record p { placeholders = place_slot c c.slot_index p.placeholders; peers = peers })
  ]

  unfoldable pub update_layout : List (Cell F) → Pipeline → Option Pipeline
  unfolding apply_cells hide_all
  update_layout cells p = apply_cells cells (record p { placeholders = hide_all p.placeholders })

-- AddPeer, when all elements of the branch could be made; `fresh` is the pad that the compositor gives.
-- `none` is a panic at its goroutines. The test and the entry into the map are separate steps of the code.
unfoldable pub add_peer : GoString → Pad → Pipeline → Option (Result GoString Pipeline)
add_peer peer fresh p = elim (lookup peer p.peers) [
  | some b ↦ some (err (lit "peer already exists"))
  | none ↦
      if is_short peer
      then none
      else some (
          ok (record p {
            peers =
                insert peer
                  (record {
                    video_pad = fresh;
                    muted = false;
                    overlay = record { text = []; use_markup = false; font_desc = [] };
                  })
                  p.peers;
          }))
]

unfoldable pub remove_peer : GoString → Pipeline → Pipeline
remove_peer peer p = record p { peers = erase peer p.peers }

-- Stop: the first part is the answer of SetState, where it is called.
unfoldable pub stop : Option GoString → Pipeline → Option GoString × Pipeline
stop answer p = if p.closed then (none, p) else (answer, record p { closed = true; peers = [] })

-- SetPeerAudioMute; `none` is a panic of its message.
unfoldable pub set_peer_audio_mute : GoString → Bool → Pipeline → Option (Result GoString Pipeline)
set_peer_audio_mute peer muted p = elim (lookup peer p.peers) [
  | none ↦ if is_short peer then none else some (err (lit "amix pad not found"))
  | some b ↦ some (ok (record p { peers = insert peer (record b { muted = muted }) p.peers }))
]

-- SetPeerOverlay of a textoverlay
unfoldable pub captioned : GoString → ℤ → Overlay → Overlay
captioned [] size o = record o { text = [] }
captioned (c ∷ markup) size o = record {
  text = c ∷ markup;
  use_markup = true;
  font_desc = lit "Sans Bold " ++ GoString.itoa (if ltb_ℤ size (pos 8) then pos 14 else size);
}

unfoldable pub set_peer_overlay :
    GoString → GoString → ℤ → Pipeline → Option (Result GoString Pipeline)
unfolding captioned
set_peer_overlay peer markup size p = elim (lookup peer p.peers) [
  | none ↦ if is_short peer then none else some (err (lit "textoverlay not found"))
  | some b ↦ some (
      ok (record p {
        peers = insert peer (record b { overlay = captioned markup size b.overlay }) p.peers;
      }))
]

-- StartRecording; `made` is the answer of MkdirAll, `set` that of the property `location`.
unfoldable pub start_recording :
    Option GoString → Option GoString → GoString → Pipeline → Result GoString Pipeline
start_recording made set filename p =
    if not p.has_recorder
    then err (lit "recording branch not present in pipeline")
    else if is_empty filename
    then err (lit "filename required")
    else elim made [
      | some x ↦ err x
      | none ↦ if p.rec_running then ok p else elim set [
        | some x ↦ err (lit "set filesink location: " ++ x)
        | none ↦ ok (record p {
          location = filename;
          drop = false;
          rec_running = true;
          rec_path = filename;
        })
      ]
    ]

-- StopRecording; `size` is what os.Stat says of a path.
unfoldable pub stop_recording : (GoString → Option ℤ) → Pipeline → (GoString × ℤ) × Pipeline
stop_recording size p = if not p.rec_running then (([], pos 0), p) else (
  (p.rec_path, elim (size p.rec_path) [ none ↦ pos 0 | some n ↦ n ]),
  record p { drop = true; rec_running = false },
)

-- sanitizeName
unfoldable pub sanitize_name : GoString → GoString
sanitize_name [] = []
sanitize_name (c ∷ s) =
    (if (leb b'a' c && leb c b'z')
        || ((leb b'A' c && leb c b'Z') || ((leb b'0' c && leb c b'9') || c == b'_'))
      then c
      else b'_')
    ∷ sanitize_name s
