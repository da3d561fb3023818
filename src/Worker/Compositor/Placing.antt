-- ===== src/Worker/Compositor/Placing.antt =====
-- services/media-worker/internal/pipeline/pipeline_gst.go, UpdateLayout: where each pad stands behind it.
use vks.Common.{
  ℕ, ◌≡◌, ◌∙◌, ap, sym, refl, inl, inr, Option-cases, Bool, true, false, ◌||◌, ◌<◌, leb, ℕ_eq, zero,
  suc, List, [], ◌∷◌, length, Option, none, some, arith, if◌then◌else◌, ◌==◌, get_elem?,
}
use vks.Common.Lists.{All}
use vks.Common.GoString.{GoString, string_eq, is_empty}
use vks.Common.Int.{ℤ, pos, negsuc}
use vks.Common.Dict.{Dict, lookup, insert, lookup-insert}
use vks.Worker.Layout.{Cell}
use vks.Worker.Compositor.{
  Pad, Branch, Pipeline, hidden, hide_all, put_pad, cell_pad, place_slot, place_peer, apply_cells,
  zorder_of, update_layout,
}

abbrev pub at_slot : ℕ → ℤ → Bool
at_slot i (pos j) = j == i
at_slot i (negsuc j) = false

module _ {F : Type 0} where
  -- The last cell of a peer
  abbrev pub last_of : GoString → List (Cell F) → Option (Cell F)
  last_of peer [] = none
  last_of peer (c ∷ cs) = elim (last_of peer cs) [
    | some d ↦ some d
    | none ↦ if c.peer_id == peer then some c else none
  ]

  -- The last cell of a slot
  abbrev pub last_at : ℕ → List (Cell F) → Option (Cell F)
  last_at i [] = none
  last_at i (c ∷ cs) = elim (last_at i cs) [
    | some d ↦ some d
    | none ↦ if at_slot i c.slot_index then some c else none
  ]

  -- A cell that names a peer names it in at least eight bytes.
  abbrev pub IsNamed : Cell F → Type 0
  IsNamed c = (is_empty c.peer_id || leb 8 (length c.peer_id)) ≡ true

module _ {F : Type 0} (int : F → ℤ) where
  -- A branch whose pad stands where the cell says, or where it has been
  abbrev pub moved : Option (Cell F) → Option Branch → Option Branch
  moved o none = none
  moved none (some b) = some b
  moved (some c) (some b) = some (record b { video_pad = cell_pad int (zorder_of c.z) c })

  -- A placeholder where the cell says, or where it has been
  abbrev pub shown : Option (Cell F) → Option (Option Pad) → Option (Option Pad)
  shown (some c) (some (some p)) = some (some (cell_pad int 5 c))
  shown o p = p

  put_pad_lem :
      (i j : ℕ) (q : Pad) (ps : List (Option Pad)) (c : Cell F)
      → q ≡ cell_pad int 5 c
      → get_elem? (put_pad j q ps) i ≡ shown (if j == i then some c else none) (get_elem? ps i)
  unfolding put_pad
  put_pad_lem i j q [] c same = ground arith
  put_pad_lem zero zero q (none ∷ ps) c same = ground arith
  put_pad_lem zero zero q (some p ∷ ps) c same = ground arith
  put_pad_lem (suc i) zero q (none ∷ ps) c same = ground arith
  put_pad_lem (suc i) zero q (some p ∷ ps) c same = ground arith
  put_pad_lem zero (suc j) q (p ∷ ps) c same = ground arith
  put_pad_lem (suc i) (suc j) q (p ∷ ps) c same = ground (arith, put_pad_lem i j q ps c same)

  place_slot_lem :
      (i : ℕ) (z : ℤ) (c : Cell F) (ps : List (Option Pad))
      → i < 20
      → get_elem? (place_slot int c z ps) i
        ≡ shown (if at_slot i z then some c else none) (get_elem? ps i)
  unfolding place_slot
  place_slot_lem i (negsuc j) c ps small = refl
  place_slot_lem i (pos j) c ps small = ground (arith, put_pad_lem i j (cell_pad int 5 c) ps c refl)

  -- Of two cells the later one counts.
  shown_twice :
      (o r : Option (Cell F)) (p : Option (Option Pad))
      → shown r (shown o p) ≡ shown (elim r [ some d ↦ some d | none ↦ o ]) p
  shown_twice none none p = refl
  shown_twice none (some d) none = refl
  shown_twice none (some d) (some none) = refl
  shown_twice none (some d) (some (some q)) = refl
  shown_twice (some c) none p = refl
  shown_twice (some c) (some d) none = refl
  shown_twice (some c) (some d) (some none) = refl
  shown_twice (some c) (some d) (some (some q)) = refl

  moved_twice :
      (o r : Option (Cell F)) (b : Option Branch)
      → moved r (moved o b) ≡ moved (elim r [ some d ↦ some d | none ↦ o ]) b
  moved_twice o r none = refl
  moved_twice none none (some b) = refl
  moved_twice none (some d) (some b) = refl
  moved_twice (some c) none (some b) = refl
  moved_twice (some c) (some d) (some b) = refl

  moved-none : (o : Option Branch) → moved none o ≡ o
  moved-none none = refl
  moved-none (some b) = refl

  after_peer : Cell F → Dict GoString Branch → Dict GoString Branch
  after_peer c peers = if is_empty c.peer_id then peers else elim (lookup c.peer_id peers) [
    | none ↦ peers
    | some b ↦ insert c.peer_id (record b { video_pad = cell_pad int (zorder_of c.z) c }) peers
  ]

  place_peer_lem :
      (c : Cell F) (peers : Dict GoString Branch)
      → IsNamed c
      → place_peer int c peers ≡ some (after_peer c peers)
  unfolding place_peer after_peer
  place_peer_lem c peers named = ground arith

  lookup-after_peer :
      (k : GoString) (c : Cell F) (peers : Dict GoString Branch)
      → is_empty k ≡ false
      → lookup k (after_peer c peers)
        ≡ moved (if c.peer_id == k then some c else none) (lookup k peers)
  unfolding after_peer
  lookup-after_peer k c peers there = elim (Option-cases (lookup c.peer_id peers)) [
    | inl gone ↦ ground arith
    | inr (b, here) ↦ ground (
      arith,
      lookup-insert k c.peer_id (record b { video_pad = cell_pad int (zorder_of c.z) c }) peers,
    )
  ]

  apply_cells_lem :
      (k : GoString) (i : ℕ) (cells : List (Cell F)) (p : Pipeline)
      → All IsNamed cells
      → is_empty k ≡ false
      → i < 20
      → (q : Pipeline) × (apply_cells int cells p ≡ some q)
        × (lookup k q.peers ≡ moved (last_of k cells) (lookup k p.peers))
        × (get_elem? q.placeholders i ≡ shown (last_at i cells) (get_elem? p.placeholders i))
  unfolding apply_cells
  apply_cells_lem k i [] p named there small = (p, refl, sym (moved-none (lookup k p.peers)), refl)
  apply_cells_lem k i (c ∷ cs) p (name, named) there small =
      let next : Pipeline = record p {
        placeholders = place_slot int c c.slot_index p.placeholders;
        peers = after_peer c p.peers;
      } in
      let (q, done, peer, slot) = apply_cells_lem k i cs next named there small in
      (
        q,
        rw (place_peer_lem c p.peers name, apply_cells) done,
        peer
            ∙ (ap (moved (last_of k cs)) (lookup-after_peer k c p.peers there)
                ∙ moved_twice _ (last_of k cs) _),
        slot
            ∙ (ap (shown (last_at i cs)) (place_slot_lem i c.slot_index c p.placeholders small)
                ∙ shown_twice _ (last_at i cs) _),
      )

-- A placeholder off the picture
abbrev pub concealed : Option (Option Pad) → Option (Option Pad)
concealed (some (some p)) = some (some (hidden p))
concealed o = o

get_elem?-hide_all :
    (i : ℕ) (ps : List (Option Pad)) → get_elem? (hide_all ps) i ≡ concealed (get_elem? ps i)
unfolding hide_all
get_elem?-hide_all i [] = refl
get_elem?-hide_all zero (none ∷ ps) = refl
get_elem?-hide_all zero (some p ∷ ps) = refl
get_elem?-hide_all (suc i) (none ∷ ps) = get_elem?-hide_all i ps
get_elem?-hide_all (suc i) (some p ∷ ps) = get_elem?-hide_all i ps

-- UpdateLayout ends if each cell that names a peer names it in at least eight bytes. Behind it the pad of
-- each peer stands where the last cell of the peer says, and where it has been if no cell is for the peer;
-- the placeholder of each slot stands where the last cell of the slot says, and off the picture if none is.
pub update_layout_lem :
    {F : Type 0} (int : F → ℤ) (k : GoString) (i : ℕ) (cells : List (Cell F)) (p : Pipeline)
    → All IsNamed cells
    → is_empty k ≡ false
    → i < 20
    → (q : Pipeline) × (update_layout int cells p ≡ some q)
      × (lookup k q.peers ≡ moved int (last_of k cells) (lookup k p.peers))
      × (get_elem? q.placeholders i
          ≡ shown int (last_at i cells) (concealed (get_elem? p.placeholders i)))
unfolding update_layout
update_layout_lem int k i cells p named there small =
    let clean : Pipeline = record p { placeholders = hide_all p.placeholders } in
    let (q, done, peer, slot) = apply_cells_lem int k i cells clean named there small in
    (q, done, peer, slot ∙ ap (shown int (last_at i cells)) (get_elem?-hide_all i p.placeholders))
