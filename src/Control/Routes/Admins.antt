-- ===== src/Control/Routes/Admins.antt =====
-- What only administrators do.
use vks.Common.{
  ◌≡◌, ap, refl, Bool, true, false, [], ◌∷◌, Option, none, some, Result, ok, err, arith,
  if◌then◌else◌, ◌⊎◌, inl, inr, contains,
}
use vks.Common.GoString.{GoString, lit, string_eq, strip_prefix, is_empty}
use vks.Control.Domain.{Layout}
use vks.Control.Store.{Store, Env}
use vks.Control.Rooms.{create, update, set_locked}
use vks.Control.Rooms.Live.{update_layout, assign_slots, kick}
use vks.Control.Recordings.{start, stop}
use vks.Control.Templates.{create_template, update_template, delete_template}
use vks.Control.Http.{
  empty, recording, layout, room, template, Response, bad, replied, with_id, with_json,
}
use vks.Control.Http.RoomHandlers.{whitelisted, numbered}
use vks.Control.Http.RoomHandlers
use vks.Control.Http.RecordingHandlers
use vks.Control.Http.LayoutHandlers
use vks.Control.Routes.Roles.{
  SameTables, get_me-SameTables, room_get-SameTables, get_slots-SameTables,
  get_participants-SameTables, rec_get-SameTables, rec_download-SameTables, template_get-SameTables,
}
use vks.Control.Http.Keeps.{with_id-keeps}
use vks.Control.Routes.{
  Claims, Action, act, guards, require, guarded, after_parse, after_header, authorized, admins,
  everybody,
}
use vks.Control.Routes
use vks.Control.Routes.Spared.{Spared, spared}
use vks.Control.Routes.Spared.RoomChanges.{
  create-Spared, update-Spared, set_locked-Spared, update_layout-Spared, assign_slots-Spared,
  kick-Spared, create_template-Spared, update_template-Spared, delete_template-Spared,
}
use vks.Control.Routes.Spared.RecordingChanges.{start-Spared, stop-Spared}

module _ {F : Type 0} (e : Env F) where
  with_id-Spared :
      (text : GoString) (k : GoString → Store F → Response F × Store F) (s : Store F)
      → ((id : GoString) → Spared s (k id s).1)
      → Spared s (with_id e text k s).1
  with_id-Spared text k s = with_id-keeps e (Spared s) text k s (spared s)

  with_json-Spared {ℓ} :
      {A : Type ℓ} (o : Option A) (k : A → Store F → Response F × Store F) (s : Store F)
      → ((a : A) → Spared s (k a s).1)
      → Spared s (with_json o k s).1
  unfolding with_json
  with_json-Spared none k s behind = spared s
  with_json-Spared (some a) k s behind = behind a

  with_input-Spared {ℓ} :
      {A : Type ℓ} (text : GoString) (o : Option A)
      (k : GoString → A → Store F → Response F × Store F) (s : Store F)
      → ((id : GoString) (a : A) → Spared s (k id a s).1)
      → Spared s (with_id e text (λ id. with_json o (k id)) s).1
  with_input-Spared text o k s behind =
      with_id-Spared text (λ id. with_json o (k id)) s
        (λ id. with_json-Spared o (k id) s (behind id))

  if-Spared :
      (b : Bool) (r t : Response F × Store F) (s : Store F)
      → Spared s r.1
      → Spared s t.1
      → Spared s (if b then r else t).1
  if-Spared true r t s left right = left
  if-Spared false r t s left right = right

  room_kick-Spared :
      (actor text peer : GoString) (s : Store F)
      → Spared s (RoomHandlers.room_kick e actor text peer s).1
  unfolding RoomHandlers.room_kick replied
  room_kick-Spared actor text peer s =
      let refusal : Response F × Store F = (bad (lit "peerId required"), s) in
      let done_by : GoString → Store F → Response F × Store F =
        λ id s. replied 204 (λ _. empty) (kick e actor id peer s) in
      with_id-Spared text
        (λ id s. if is_empty peer then (bad (lit "peerId required"), s) else done_by id s) s
        (λ id.
          if-Spared (is_empty peer) refusal (done_by id s) s (spared s)
            (kick-Spared e actor id peer s))

  of_SameTables : {s t : Store F} → SameTables s t → Spared s t
  of_SameTables h = record {
    users = ap (λ db. db.users) h.db;
    tokens = ap (λ db. db.tokens) h.db;
    rooms = λ x there. rw h.rooms there;
    recordings = λ x there. rw h.recordings there;
  }

-- Every role but that of administrators
abbrev pub NotAdmin : GoString → Type 0
NotAdmin role = contains admins role ≡ false

closed_alone : (role : GoString) → NotAdmin role → require (admins ∷ []) role ≡ false
unfolding require
closed_alone role low = ground arith

closed : (role : GoString) → NotAdmin role → require (everybody ∷ admins ∷ []) role ≡ false
unfolding require
closed role low = ground arith

module _ {F : Type 0} (e : Env F) (grid : Layout F) where
  -- A route either is closed to such a role, or spares what only administrators change.
  sparing :
      (role : GoString)
      → NotAdmin role
      → (actor : GoString) (a : Action F) (s : Store F)
      → (require (guards a) role ≡ false) ⊎ Spared s (act e grid actor a s).1
  unfolding guards act replied RoomHandlers.room_create RoomHandlers.room_update
      RoomHandlers.set_lock RoomHandlers.put_layout RoomHandlers.put_slots RoomHandlers.room_kick
      RecordingHandlers.rec_start RecordingHandlers.rec_stop LayoutHandlers.template_create
      LayoutHandlers.template_patch LayoutHandlers.template_delete
  sparing role low actor Routes.get_me s = inr (of_SameTables e (get_me-SameTables e actor s))
  sparing role low actor Routes.logout s = inr (spared s)
  sparing role low actor (Routes.create_room i) s = inr (
      with_json-Spared e i (λ v s. replied 201 room (create e actor grid v s)) s
        (λ v. create-Spared e actor grid v s))
  sparing role low actor (Routes.get_room id) s = inr (of_SameTables e (room_get-SameTables e id s))
  sparing role low actor (Routes.patch_room id i) s = inr (
      with_input-Spared e id i
        (λ id raw s. replied 200 room (update e actor id (whitelisted raw []) s)) s
        (λ id raw. update-Spared e actor id (whitelisted raw []) s))
  sparing role low actor (Routes.delete_room id) s = inl (closed role low)
  sparing role low actor (Routes.lock_room id) s = inr (
      with_id-Spared e id (λ id s. replied 204 (λ _. empty) (set_locked e actor id true s)) s
        (λ id. set_locked-Spared e actor id true s))
  sparing role low actor (Routes.unlock_room id) s = inr (
      with_id-Spared e id (λ id s. replied 204 (λ _. empty) (set_locked e actor id false s)) s
        (λ id. set_locked-Spared e actor id false s))
  sparing role low actor (Routes.put_layout id i) s = inr (
      with_input-Spared e id i
        (λ id l s. replied 200 (λ _. layout l) (update_layout e actor id l s)) s
        (λ id l. update_layout-Spared e actor id l s))
  sparing role low actor (Routes.get_slots id) s =
      inr (of_SameTables e (get_slots-SameTables e id s))
  sparing role low actor (Routes.put_slots id i) s = inr (
      with_input-Spared e id i
        (λ id raw s. replied 204 (λ _. empty) (assign_slots e actor id (numbered raw []) s)) s
        (λ id raw. assign_slots-Spared e actor id (numbered raw []) s))
  sparing role low actor (Routes.get_participants id) s =
      inr (of_SameTables e (get_participants-SameTables e id s))
  sparing role low actor (Routes.kick id peer) s = inr (room_kick-Spared e actor id peer s)
  sparing role low actor (Routes.start_recording id) s = inr (
      with_id-Spared e id (λ id s. replied 200 recording (start e actor id s)) s
        (λ id. start-Spared e actor id s))
  sparing role low actor (Routes.stop_recording id) s = inr (
      with_id-Spared e id (λ id s. replied 200 recording (stop e actor id s)) s
        (λ id. stop-Spared e actor id s))
  sparing role low actor (Routes.get_recording id) s =
      inr (of_SameTables e (rec_get-SameTables e id s))
  sparing role low actor (Routes.download id) s =
      inr (of_SameTables e (rec_download-SameTables e id s))
  sparing role low actor (Routes.delete_recording id) s = inl (closed_alone role low)
  sparing role low actor (Routes.create_template i) s = inr (
      with_json-Spared e i (λ v s. replied 201 template (create_template e actor v s)) s
        (λ v. create_template-Spared e actor v s))
  sparing role low actor (Routes.get_template id) s =
      inr (of_SameTables e (template_get-SameTables e id s))
  sparing role low actor (Routes.patch_template id i) s = inr (
      with_input-Spared e id i (λ id set s. replied 200 template (update_template e actor id set s))
        s (λ id set. update_template-Spared e actor id set s))
  sparing role low actor (Routes.delete_template id) s = inr (
      with_id-Spared e id (λ id s. replied 204 (λ _. empty) (delete_template e actor id s)) s
        (λ id. delete_template-Spared e actor id s))
  sparing role low actor (Routes.create_user _) s = inl (closed_alone role low)
  sparing role low actor (Routes.patch_user _ _) s = inl (closed_alone role low)
  sparing role low actor (Routes.delete_user _) s = inl (closed_alone role low)

  guarded-Spared :
      (c : Claims) (a : Action F) (s : Store F)
      → NotAdmin c.role
      → Spared s (guarded e grid c a s).1
  unfolding guarded
  guarded-Spared c a s low = elim (sparing c.role low c.user_id a s) [
    | inl closed ↦ rw closed (spared s)
    | inr kept ↦
        if-Spared e (require (guards a) c.role) (act e grid c.user_id a s) _ s kept (spared s)
  ]

  after_parse-Spared :
      (r : Result GoString Claims) (a : Action F) (s : Store F)
      → ((c : Claims) → r ≡ ok c → NotAdmin c.role)
      → Spared s (after_parse e grid r a s).1
  unfolding after_parse
  after_parse-Spared (err x) a s low = spared s
  after_parse-Spared (ok c) a s low = guarded-Spared c a s (low c refl)

  after_header-Spared :
      (parse : GoString → Result GoString Claims) (o : Option GoString) (a : Action F) (s : Store F)
      → ((token : GoString) (c : Claims) → o ≡ some token → parse token ≡ ok c → NotAdmin c.role)
      → Spared s (after_header e grid parse o a s).1
  unfolding after_header
  after_header-Spared parse none a s low = spared s
  after_header-Spared parse (some token) a s low =
      after_parse-Spared (parse token) a s (λ c. low token c refl)

  -- Behind Auth, whatever `parse` is, a request changes no account and no refresh token, and takes away no
  -- room and no recording, if the token of its header, where there is one that `parse` accepts, has another
  -- role than admin.
  pub authorized-Spared :
      (parse : GoString → Result GoString Claims) (header : GoString) (a : Action F) (s : Store F)
      → ((token : GoString) (c : Claims)
          → strip_prefix (lit "Bearer ") header ≡ some token
          → parse token ≡ ok c
          → NotAdmin c.role)
      → Spared s (authorized e grid parse header a s).1
  unfolding authorized
  authorized-Spared parse header a s low =
      after_header-Spared parse (strip_prefix (lit "Bearer ") header) a s low
