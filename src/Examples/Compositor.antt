-- ===== src/Examples/Compositor.antt =====
-- A layout of two cells for the pipeline of a room with two peers; positions are whole numbers.
use vks.Common.{◌≡◌, refl, true, false, List, [], ◌∷◌, none, some, arith, get_elem?}
use vks.Common.GoString.{lit, string_eq}
use vks.Common.Int.{ℤ, pos, negsuc}
use vks.Common.Dict.{lookup}
use vks.Worker.Layout.{Cell}
use vks.Worker.Compositor.{Pad, Branch, Pipeline, update_layout}
use vks.Worker.Compositor.Placing.{last_of, last_at, moved, shown, concealed, update_layout_lem}

abbrev corner : Pad
corner = record { xpos = pos 0; ypos = pos 0; width = pos 1; height = pos 1; zorder = 1 }

abbrev branch : Branch
branch = record {
  video_pad = corner;
  muted = false;
  overlay = record { text = []; use_markup = false; font_desc = [] };
}

abbrev at_work : Pipeline
at_work = record {
  placeholders = some corner ∷ none ∷ some corner ∷ [];
  peers = (lit "alice-01", branch) ∷ (lit "bobby-02", branch) ∷ [];
  closed = false;
  has_recorder = true;
  location = [];
  drop = true;
  rec_running = false;
  rec_path = [];
}

abbrev two_cells : List (Cell ℤ)
two_cells =
    record {
      peer_id = lit "alice-01";
      x = pos 0;
      y = pos 0;
      w = pos 640;
      h = pos 360;
      z = pos 0;
      slot_index = pos 0;
    }
    ∷ record {
      peer_id = [];
      x = pos 640;
      y = pos 0;
      w = pos 640;
      h = pos 360;
      z = negsuc 0;
      slot_index = pos 2;
    }
    ∷ []

placing_example :
    (q : Pipeline) × (update_layout (λ x. x) two_cells at_work ≡ some q)
    × (lookup (lit "alice-01") q.peers
        ≡ moved
            (λ x. x)
            (last_of (lit "alice-01") two_cells)
            (lookup (lit "alice-01") at_work.peers))
    × (get_elem? q.placeholders 2
        ≡ shown (λ x. x) (last_at 2 two_cells) (concealed (get_elem? at_work.placeholders 2)))
placing_example =
    update_layout_lem (λ x. x) (lit "alice-01") 2 two_cells at_work (refl, (refl, tt)) refl
      (omega arith)
