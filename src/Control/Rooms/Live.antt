-- ===== src/Control/Rooms/Live.antt =====
-- services/control-plane/internal/usecase/rooms.go: what concerns a running conference, which is the
-- layout, the slots and the participants.
use vks.Common.{Bool, true, false, List, [], ◌∷◌, none, some, Result, ok, err, if◌then◌else◌}
use vks.Common.GoString.{GoString, lit, string_eq}
use vks.Common.Int.{ℤ}
use vks.Common.Dict.{Dict, lookup, insert, erase}
use vks.Control.Errors.{AppError, internal, unavailable}
use vks.Control.Domain.{Layout}
use vks.Control.Tables.{Failure}
use vks.Control.Store.{
  Value, text, boolean, json, other, Row, RecordingRow, Store, Env, ask, note, set_alias,
  delete_alias, find_row, delete_row, text_of, json_of, get_roster, kick_peer, broadcast_layout,
  broadcast_slots,
}
use vks.Control.Store
use vks.Control.Rooms.{app_error, Done, update_row}

-- Presence.List: what is no participant is skipped.
unfoldable pub listed : (GoString → Bool) → Dict GoString GoString → List GoString
listed good [] = []
listed good ((k, v) ∷ d) = let rest = listed good d in if good v then v ∷ rest else rest

module _ {F : Type 0} where
  -- A request, and an entry of the audit log if it fails.
  unfoldable pub try_ask :
      Env F → GoString → GoString → GoString → Failure → Store.Ask F → Store F → Store F
  unfolding note
  try_ask e actor id action none a s = ask a s
  try_ask e actor id action (some x) a s = note e actor action id (ask a s)

  unfoldable pub push_layout :
      Env F
      → GoString
      → GoString
      → Layout F
      → Result AppError Done × Store F
      → Result AppError Done × Store F
  unfolding try_ask note
  push_layout e actor id l (err x, s) = (err x, s)
  push_layout e actor id l (ok _, s) =
      let pushed =
        try_ask e actor id (lit "rooms.layout.mediafail") e.media (Store.update_layout id l) s in
      let told =
        if e.has_signaling
        then try_ask e actor id (lit "rooms.layout.broadcastfail") e.signaling
            (broadcast_layout id l) pushed
        else pushed in
      (ok tt, note e actor (lit "rooms.layout") id told)

  unfoldable pub update_layout :
      Env F → GoString → GoString → Layout F → Store F → Result AppError Done × Store F
  unfolding update_row push_layout
  update_layout e actor id l s =
      push_layout e actor id l (update_row e id ((lit "default_layout", json (e.marshal l)) ∷ []) s)

  abbrev has_cells : Layout F → Bool
  has_cells l = elim l.cells [ [] ↦ false | c ∷ cs ↦ true ]

  -- The goroutine of Participants: the layout of the table goes to the worker again.
  unfoldable pub repeat_layout : Env F → GoString → Store F → Store F
  repeat_layout e id s = elim e.first_query [
    | some x ↦ s
    | none ↦ elim (find_row id s.rooms) [
      | none ↦ s
      | some r ↦
          let l = e.unmarshal (json_of (lookup (lit "default_layout") r.columns)) in
          if has_cells l then ask (Store.update_layout id l) s else s
    ]
  ]

  unfoldable pub participants :
      Env F → GoString → Store F → Result AppError (List GoString) × Store F
  unfolding repeat_layout listed
  participants e id s = (
    elim e.presence_command [
      | some x ↦ err (app_error internal x)
      | none ↦ ok (listed e.is_participant (elim (lookup id s.presence) [ none ↦ [] | some d ↦ d ]))
    ],
    repeat_layout e id s,
  )

  unfoldable pub slots :
      Env F → GoString → Store F → Result AppError (Dict GoString GoString) × Store F
  slots e id s =
      (elim e.roster [ err x ↦ err (app_error internal x) | ok d ↦ ok d ], ask (get_roster id) s)

  unfoldable pub assign_slots :
      Env F → GoString → GoString → Dict ℤ GoString → Store F → Result AppError Done × Store F
  unfolding note
  assign_slots e actor id m s =
      let asked = ask (Store.assign_slots id m) s in
      elim e.media [
        | some x ↦ (err (app_error unavailable (lit "media slots")), asked)
        | none ↦
            let noted = note e actor (lit "rooms.slots") id asked in
            (ok tt, if e.has_signaling then ask (broadcast_slots id m) noted else noted)
      ]

  unfoldable pub forget_peer : Env F → GoString → GoString → Store F → Store F
  forget_peer e id peer s = elim e.presence_command [
    | some x ↦ s
    | none ↦ elim (lookup id s.presence) [
      | none ↦ s
      | some d ↦ record s { presence = insert id (erase peer d) s.presence }
    ]
  ]

  unfoldable pub kick :
      Env F → GoString → GoString → GoString → Store F → Result AppError Done × Store F
  unfolding forget_peer note
  kick e actor id peer s =
      let asked = ask (kick_peer id peer) s in
      elim e.media [
        | some x ↦ (err (app_error unavailable (lit "media kick")), asked)
        | none ↦ (ok tt, note e actor (lit "rooms.kick") id (forget_peer e id peer asked))
      ]
