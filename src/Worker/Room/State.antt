-- ===== src/Worker/Room/State.antt =====
-- The state of a room (the struct Room of room.go) and the calls that it makes on others: the GStreamer
-- pipeline, the peers' connections and the notifier.
use vks.Common.{ℕ, Bool, true, false, List, [], ◌∷◌, ◌++◌}
use vks.Common.GoString.{GoString, lit}
use vks.Common.Int.{ℤ, pos, negsuc}
use vks.Common.Float.{Float64}
use vks.Common.Dict.{Dict}
use vks.Worker.Layout.{Mode, Cell, mode_grid}
use vks.Worker.Asd.{Detector}
use vks.Worker.Asd
use vks.Worker.Room.Slots.{no_slots}

-- peer.Peer without its Pion connection.
pub record Peer : Type 0 where
  pub closed : Bool

-- sipbridge.Peer as its room sees it.
pub record SipPeer : Type 0 where
  pub audio_port : ℕ
  pub video_port : ℕ

-- A cell of the layout editor; `id` is "slot-N", "speaker" or a peer.
pub record CustomCell (F : Type 0) : Type 0 where
  pub id : GoString
  pub x : F
  pub y : F
  pub w : F
  pub h : F
  pub z : ℤ
  pub vad : Bool

pub record NameStyle (F : Type 0) : Type 0 where
  pub bg_alpha : F
  pub bg_color : GoString
  pub font_size : ℤ
  pub font_color : GoString

-- A channel into the pipeline is named by a number. `stopped` says that stopEgress is closed.
pub record Room (F : Type 0) : Type 0 where
  pub id : GoString
  pub peers : Dict GoString Peer
  pub join_order : List GoString
  pub det : Detector F
  pub mode : Mode
  pub recording : Bool
  pub record_path : GoString
  pub video_codec : GoString
  pub width : ℤ
  pub height : ℤ
  pub sfu : Bool
  pub slots : List GoString
  pub custom_cells : List (CustomCell F)
  pub display_names : Dict GoString GoString
  pub sip_peers : Dict GoString SipPeer
  pub show_names : Bool
  pub style : NameStyle F
  pub video_in : Dict GoString ℕ
  pub audio_in : Dict GoString ℕ
  pub has_notifier : Bool
  pub stopped : Bool

pub record RosterEntry : Type 0 where
  pub slot : ℕ
  pub peer_id : GoString
  pub display_name : GoString

-- What a room asks of its surroundings, in the order in which it does.
pub data Call (F : Type 0) : Type 0 where
  pipeline_add : GoString → GoString → GoString → Call F
  pipeline_remove : GoString → Call F
  pipeline_mute : GoString → Bool → Call F
  pipeline_overlay : GoString → GoString → ℤ → Call F
  pipeline_layout : List (Cell F) → Call F
  pipeline_start_recording : GoString → Call F
  pipeline_stop_recording : Call F
  pipeline_stop : Call F
  close_peer : GoString → Call F
  close_sip_peer : GoString → Call F
  notify_roster : GoString → List RosterEntry → Call F
  panics : Call F

pub record World (F : Type 0) : Type 0 where
  pub room : Room F
  pub calls : List (Call F)

abbrev pub emit : {F : Type 0} → Call F → World F → World F
emit c s = record s { calls = s.calls ++ c ∷ [] }

abbrev pub update : {F : Type 0} → (Room F → Room F) → World F → World F
update f s = record s { room = f s.room }

-- The arguments of New that a room keeps.
pub record Options : Type 0 where
  pub id : GoString
  pub video_codec : GoString
  pub width : ℤ
  pub height : ℤ
  pub sfu : Bool
  pub has_notifier : Bool

-- New; the loops that it starts are modelled in Room/Forward.
module _ {F : Type 0} (fl : Float64 F) where
  open fl use {decimal}

  unfoldable pub new : Options → Room F
  unfolding Asd.new
  new opts = record {
    id = opts.id;
    peers = [];
    join_order = [];
    det = Asd.new (fl.of_int (negsuc 44)) 800_000_000;
    mode = mode_grid;
    recording = false;
    record_path = [];
    video_codec = opts.video_codec;
    width = opts.width;
    height = opts.height;
    sfu = opts.sfu;
    slots = no_slots;
    custom_cells = [];
    display_names = [];
    sip_peers = [];
    show_names = true;
    style = record {
      bg_alpha = decimal (pos 6) 1;
      bg_color = lit "#000000";
      font_size = pos 14;
      font_color = lit "#FFFFFF";
    };
    video_in = [];
    audio_in = [];
    has_notifier = opts.has_notifier;
    stopped = false;
  }
