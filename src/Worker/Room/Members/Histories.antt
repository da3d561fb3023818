-- ===== src/Worker/Room/Members/Histories.antt =====
-- A room over its whole life: every sequence of calls by clients that keep to the protocol.
use vks.Common.{
  ℕ, ◌≡◌, ◌≢◌, refl, Bool, true, false, List, [], Option, none, some, arith, if◌then◌else◌, Result,
  ok, err, ◌≤◌, count, Option-cases, inl, inr, ◌⊎◌, ◌∷◌, replicate, zero, suc,
}
use vks.Common.GoString.{GoString, string_eq}
use vks.Common.Int.{ℤ}
use vks.Common.Float.{Float64}
use vks.Common.Dict.{Dict, lookup}
use vks.Worker.Layout.{Mode}
use vks.Worker.Asd.{forget}
use vks.Worker.Room.Forward.{asd_round}
use vks.Worker.Room.Recording.{start_recording, stop_recording}
use vks.Worker.Room.Slots.Exclusive.{IsExclusive}
use vks.Worker.Room.Slots.{assign_slots, slot_count}
use vks.Worker.Room.State.{Room, SipPeer, CustomCell, World, Options, new, update}
use vks.Worker.Room.Names.{set_name_style, set_show_names, refresh_all_overlays, refresh_overlays}
use vks.Worker.Room.Picture.{apply_layout, set_layout, set_custom_layout}
use vks.Worker.Room.Members.{
  JoinAnswers, add_peer, remove_peer, add_sip_peer, remove_sip_peer, assign, caption,
  negotiate_peer, connect_pipeline, listen_sip, notify_roster_async, close_if_there,
  close_sip_if_there, enter, leave, enter_sip, leave_sip,
}
use vks.Worker.Room.Members.Invariant.{
  IsWellFormed, IsNew, AllJoined, enter-IsWellFormed, enter_sip-IsWellFormed, leave-IsWellFormed,
  leave_sip-IsWellFormed, assign-IsWellFormed, IsWellFormed-IsExclusive, IsWellFormed-same,
}
use vks.Worker.Room.Members.Recorded.{
  start_recording-IsWellFormed, stop_recording-IsWellFormed, asd_round-IsWellFormed,
}

count-free : (n : ℕ) (p : GoString) → p ≢ [] → count p (replicate n []) ≤ 0
count-free zero p h = omega arith
count-free (suc n) p h = ground (arith, count-free n p h)

module _ {F : Type 0} (fl : Float64 F) where
  room-notify : (s : World F) → (notify_roster_async s).room ≡ s.room
  unfolding notify_roster_async
  room-notify s = ground arith

  room-caption : (p name : GoString) (s : World F) → (caption fl p name s).room ≡ s.room
  unfolding caption apply_layout
  room-caption p name s = ground arith

  room-negotiate_err :
      (p name : GoString) (channels : Option (ℕ × ℕ)) (e : GoString) (s : World F)
      → (negotiate_peer fl p name channels (err e) s).0.room ≡ s.room
  unfolding negotiate_peer
  room-negotiate_err p name channels e s = ground arith

  negotiate-IsWellFormed :
      (p name : GoString) (channels : Option (ℕ × ℕ)) (answer : Result GoString GoString)
      (s : World F)
      → IsNew p s.room
      → IsWellFormed s.room
      → IsWellFormed (negotiate_peer fl p name channels answer s).0.room
  negotiate-IsWellFormed p name channels (ok sdp) s fresh wf =
      unfold negotiate_peer in
      rw (room-caption p name (update (enter p name channels) s))
        (enter-IsWellFormed p name channels s.room fresh wf)
  negotiate-IsWellFormed p name channels (err e) s fresh wf =
      rw (room-negotiate_err p name channels e s) wf

  connect-IsWellFormed :
      (p name : GoString) (pipe : Result GoString (ℕ × ℕ)) (answer : Result GoString GoString)
      (s : World F)
      → IsNew p s.room
      → IsWellFormed s.room
      → IsWellFormed (connect_pipeline fl p name pipe answer s).0.room
  unfolding connect_pipeline
  connect-IsWellFormed p name (ok channels) answer s fresh wf =
      negotiate-IsWellFormed p name (some channels) answer _ fresh wf
  connect-IsWellFormed p name (err e) answer s fresh wf = wf

  -- What AddPeer leaves, case by case.
  add_peer-cases {ℓ} :
      (P : World F × Result GoString GoString → Type ℓ) (p name : GoString) (a : JoinAnswers)
      (s : World F)
      → ((e : GoString) → P (s, err e))
      → (lookup p s.room.peers ≡ none → P (negotiate_peer fl p name none a.negotiate s))
      → (lookup p s.room.peers ≡ none
          → P (connect_pipeline fl p name a.pipeline_add_peer a.negotiate s))
      → P (add_peer fl p name a s)
  unfolding add_peer
  add_peer-cases P p name a s refused direct mixed = elim (Option-cases (lookup p s.room.peers)) [
    | inr (_, there) ↦ rw (there, add_peer) (refused _)
    | inl free ↦ elim (Option-cases a.new_peer) [
      | inr (e, failed) ↦ rw (free, failed, add_peer) (refused e)
      | inl made ↦
          rw (free, made, add_peer)
            (elim s.room.sfu
              as (λ b. P (
                if b
                then negotiate_peer fl p name none a.negotiate s
                else connect_pipeline fl p name a.pipeline_add_peer a.negotiate s)) [
                  | true ↦ direct free
                  | false ↦ mixed free
                ])
    ]
  ]

  -- AddPeer keeps the room well formed, whether it succeeds or fails at any point.
  pub add_peer-IsWellFormed :
      (p name : GoString) (a : JoinAnswers) (s : World F)
      → p ≢ []
      → lookup p s.room.sip_peers ≡ none
      → IsWellFormed s.room
      → IsWellFormed (add_peer fl p name a s).0.room
  add_peer-IsWellFormed p name a s h not_sip wf =
      add_peer-cases (λ r. IsWellFormed r.0.room) p name a s (λ e. wf)
        (λ free.
          negotiate-IsWellFormed p name none a.negotiate s
            (record { has_id = h; not_peer = free; not_sip = not_sip }) wf)
        (λ free.
          connect-IsWellFormed p name a.pipeline_add_peer a.negotiate s
            (record { has_id = h; not_peer = free; not_sip = not_sip }) wf)

  pub room-remove_peer :
      (wall : ℕ) (p : GoString) (s : World F)
      → (remove_peer fl wall p s).room ≡ record (leave p s.room) { det = forget wall p s.room.det }
  unfolding remove_peer apply_layout close_if_there
  room-remove_peer wall p s = ground arith

  pub remove_peer-IsWellFormed :
      (wall : ℕ) (p : GoString) (s : World F)
      → p ≢ []
      → lookup p s.room.sip_peers ≡ none
      → IsWellFormed s.room
      → IsWellFormed (remove_peer fl wall p s).room
  remove_peer-IsWellFormed wall p s h not_sip wf = rw (room-remove_peer wall p s) (
      IsWellFormed-same (leave p s.room) _ refl refl refl refl
        (leave-IsWellFormed p s.room h not_sip wf))

  pub room-remove_sip_peer :
      (p : GoString) (s : World F) → (remove_sip_peer fl p s).room ≡ leave_sip p s.room
  unfolding remove_sip_peer apply_layout close_sip_if_there notify_roster_async
  room-remove_sip_peer p s = ground arith

  room-add_sip_peer :
      (p name : GoString) (pipe : Result GoString (ℕ × ℕ)) (listener : Result GoString SipPeer)
      (s : World F)
      → ((add_sip_peer fl p name pipe listener s).0.room ≡ s.room)
        ⊎ ((sp : SipPeer) × ((add_sip_peer fl p name pipe listener s).0.room
              ≡ enter_sip p name sp s.room))
  unfolding add_sip_peer listen_sip apply_layout notify_roster_async
  room-add_sip_peer p name (err e) listener s = inl refl
  room-add_sip_peer p name (ok channels) (err e) s = inl refl
  room-add_sip_peer p name (ok channels) (ok sp) s = inr (sp, ground arith)

  pub add_sip_peer-IsWellFormed :
      (p name : GoString) (pipe : Result GoString (ℕ × ℕ)) (listener : Result GoString SipPeer)
      (s : World F)
      → IsNew p s.room
      → IsWellFormed s.room
      → IsWellFormed (add_sip_peer fl p name pipe listener s).0.room
  add_sip_peer-IsWellFormed p name pipe listener s fresh wf =
      elim (room-add_sip_peer p name pipe listener s) [
        | inl same ↦ rw same wf
        | inr (sp, entered) ↦ rw entered (enter_sip-IsWellFormed p name sp s.room fresh wf)
      ]

  room-assign :
      (a : Dict ℤ GoString) (s : World F)
      → (assign fl a s).room ≡ record s.room { slots = assign_slots a s.room.slots }
  unfolding assign apply_layout
  room-assign a s = ground arith

  refresh_room :
      (r : Room F) (d : Dict GoString GoString) (s : World F)
      → (refresh_overlays fl r d s).room ≡ s.room
  unfolding refresh_overlays
  refresh_room r [] s = refl
  refresh_room r ((p, name) ∷ d) s = refresh_room r d _

  -- One call on a room before Close, or one round of asdLoop. A client names new participants anew, takes
  -- each out by the call of its kind, and assigns slots to participants.
  pub data Step : World F → World F → Type 0 where
    joins :
        (p name : GoString) (a : JoinAnswers) (s : World F)
        → p ≢ []
        → lookup p s.room.sip_peers ≡ none
        → Step s (add_peer fl p name a s).0
    leaves :
        (wall : ℕ) (p : GoString) (s : World F)
        → p ≢ []
        → lookup p s.room.sip_peers ≡ none
        → Step s (remove_peer fl wall p s)
    dials :
        (p name : GoString) (pipe : Result GoString (ℕ × ℕ)) (listener : Result GoString SipPeer)
        (s : World F)
        → IsNew p s.room
        → Step s (add_sip_peer fl p name pipe listener s).0
    hangs_up :
        (p : GoString) (s : World F)
        → p ≢ []
        → lookup p s.room.peers ≡ none
        → Step s (remove_sip_peer fl p s)
    assigns :
        (a : Dict ℤ GoString) (s : World F) → AllJoined a s.room.join_order → Step s (assign fl a s)
    lays_out : (m : Mode) (s : World F) → Step s (set_layout fl m s)
    lays_out_cells :
        (cells : List (CustomCell F)) (s : World F) → Step s (set_custom_layout fl cells s)
    names : (on : Bool) (s : World F) → Step s (set_show_names fl on s)
    styles :
        (alpha : Option F) (bg : Option GoString) (size : Option ℤ) (fg : Option GoString)
        (s : World F)
        → Step s (set_name_style fl alpha bg size fg s)
    records :
        (join : GoString → GoString → GoString) (dir : GoString) (answer : Option GoString)
        (s : World F)
        → Step s (start_recording join dir answer s).0
    records_no_more :
        (answer : Result GoString (GoString × ℤ)) (s : World F) → Step s (stop_recording answer s).0
    speaks :
        (wall : ℕ) (p : GoString) (dbfs : F) (s : World F) → Step s (asd_round fl wall p dbfs s)

  pub data Reach (s : World F) : World F → Type 0 where
    here : Reach s s
    next : {t u : World F} → Reach s t → Step t u → Reach s u

  Step-IsWellFormed : {s t : World F} → Step s t → IsWellFormed s.room → IsWellFormed t.room
  Step-IsWellFormed (joins p name a s h k) wf = add_peer-IsWellFormed p name a s h k wf
  Step-IsWellFormed (leaves wall p s h k) wf = remove_peer-IsWellFormed wall p s h k wf
  Step-IsWellFormed (dials p name pipe listener s fresh) wf =
      add_sip_peer-IsWellFormed p name pipe listener s fresh wf
  Step-IsWellFormed (hangs_up p s h k) wf =
      rw (room-remove_sip_peer p s) (leave_sip-IsWellFormed p s.room h k wf)
  Step-IsWellFormed (assigns a s h) wf = rw (room-assign a s) (assign-IsWellFormed a s.room h wf)
  Step-IsWellFormed (lays_out m s) wf =
      unfold set_layout apply_layout in IsWellFormed-same s.room _ refl refl refl refl wf
  Step-IsWellFormed (lays_out_cells cells s) wf =
      unfold set_custom_layout apply_layout in IsWellFormed-same s.room _ refl refl refl refl wf
  Step-IsWellFormed (names on s) wf =
      unfold set_show_names refresh_all_overlays in
      rw (refresh_room _ _ _) (IsWellFormed-same s.room _ refl refl refl refl wf)
  Step-IsWellFormed (styles alpha bg size fg s) wf =
      unfold set_name_style refresh_all_overlays in
      rw (refresh_room _ _ _) (IsWellFormed-same s.room _ refl refl refl refl wf)
  Step-IsWellFormed (records join dir answer s) wf =
      start_recording-IsWellFormed join dir answer s wf
  Step-IsWellFormed (records_no_more answer s) wf = stop_recording-IsWellFormed answer s wf
  Step-IsWellFormed (speaks wall p dbfs s) wf = asd_round-IsWellFormed fl wall p dbfs s wf

  Reach-IsWellFormed : {s t : World F} → Reach s t → IsWellFormed s.room → IsWellFormed t.room
  Reach-IsWellFormed here wf = wf
  Reach-IsWellFormed (next r st) wf = Step-IsWellFormed st (Reach-IsWellFormed r wf)

  pub new-IsWellFormed : (opts : Options) → IsWellFormed (new fl opts)
  unfolding new lookup
  new-IsWellFormed opts = record {
    sized = refl;
    joined = λ p. refl;
    once = λ p. omega arith;
    seated = λ p h. count-free slot_count p h;
  }

  -- Whatever calls a room gets after New and before Close, in any order, and whatever rounds the detector
  -- of speakers makes between them, if each join names an id that is not empty and not in use as one of
  -- the other kind, each dial-in a new one, each leaving is by the call of the participant's kind and
  -- names an id that is not empty, and slots are assigned to participants: the slot table has its twenty
  -- entries, the order of joining lists each participant once and nobody else, only participants hold
  -- slots, and none holds two.
  pub Reach_lem :
      (opts : Options) (s : World F)
      → Reach (record { room = new fl opts; calls = [] }) s
      → IsWellFormed s.room × IsExclusive s.room.slots
  Reach_lem opts s r =
      let wf = Reach-IsWellFormed r (new-IsWellFormed opts) in
      (wf, IsWellFormed-IsExclusive s.room wf)
