-- ===== src/Control/Routes/Roles.antt =====
-- What a role may change.
use vks.Common.{
  ◌≡◌, refl, Bool, true, false, [], ◌∷◌, Option, none, some, Result, ok, err, arith, if◌then◌else◌,
  contains, ◌⊎◌, inl, inr,
}
use vks.Common.GoString.{GoString, lit, string_eq, strip_prefix}
use vks.Control.Domain.{Layout}
use vks.Control.Store.{Store, Env}
use vks.Control.Rooms.Live.{repeat_layout, participants, slots}
use vks.Control.Http.{Response, replied}
use vks.Control.Http.RoomHandlers.{get_participants, room_get}
use vks.Control.Http.RoomHandlers
use vks.Control.Http.RecordingHandlers.{rec_get, rec_download}
use vks.Control.Http.LayoutHandlers.{template_get}
use vks.Control.Http.UserHandlers.{get_me}
use vks.Control.Routes.{
  Claims, Action, act, guards, require, guarded, after_parse, after_header, authorized, everybody,
  moderators, operators, admins,
}
use vks.Control.Routes

-- All tables of PostgreSQL and of Redis are as before.
pub record SameTables {F : Type 0} (s t : Store F) : Type 0 where
  pub db : t.db ≡ s.db
  pub rooms : t.rooms ≡ s.rooms
  pub recordings : t.recordings ≡ s.recordings
  pub templates : t.templates ≡ s.templates
  pub aliases : t.aliases ≡ s.aliases
  pub presence : t.presence ≡ s.presence

-- A role that no list but that of everybody names
abbrev pub Lowly : GoString → Type 0
Lowly role = contains moderators role ≡ false

not_admin : (role : GoString) → Lowly role → require (admins ∷ []) role ≡ false
unfolding require
not_admin role low = ground arith

not_operator : (role : GoString) → Lowly role → require (everybody ∷ operators ∷ []) role ≡ false
unfolding require
not_operator role low = ground arith

not_moderator : (role : GoString) → Lowly role → require (everybody ∷ moderators ∷ []) role ≡ false
unfolding require
not_moderator role low = ground arith

deleting : (role : GoString) → Lowly role → require (everybody ∷ admins ∷ []) role ≡ false
unfolding require
deleting role low = ground arith

module _ {F : Type 0} where
  same : (s : Store F) → SameTables s s
  same s = record {
    db = refl;
    rooms = refl;
    recordings = refl;
    templates = refl;
    aliases = refl;
    presence = refl;
  }

module _ {F : Type 0} (e : Env F) where
  pub get_me-SameTables : (actor : GoString) (s : Store F) → SameTables s (get_me e actor s).1
  unfolding get_me
  get_me-SameTables actor s = ground arith

  pub room_get-SameTables : (id : GoString) (s : Store F) → SameTables s (room_get e id s).1
  unfolding room_get
  room_get-SameTables id s = ground arith

  pub get_slots-SameTables :
      (id : GoString) (s : Store F) → SameTables s (RoomHandlers.get_slots e id s).1
  unfolding RoomHandlers.get_slots replied slots
  get_slots-SameTables id s = ground arith

  pub get_participants-SameTables :
      (id : GoString) (s : Store F) → SameTables s (get_participants e id s).1
  unfolding get_participants replied participants repeat_layout
  get_participants-SameTables id s = ground arith

  pub rec_get-SameTables : (id : GoString) (s : Store F) → SameTables s (rec_get e id s).1
  unfolding rec_get
  rec_get-SameTables id s = ground arith

  pub rec_download-SameTables : (id : GoString) (s : Store F) → SameTables s (rec_download e id s).1
  unfolding rec_download
  rec_download-SameTables id s = ground arith

  pub template_get-SameTables : (id : GoString) (s : Store F) → SameTables s (template_get e id s).1
  unfolding template_get
  template_get-SameTables id s = ground arith

module _ {F : Type 0} (e : Env F) (grid : Layout F) where
  -- A route either is closed to such a role, or changes no table.
  harmless :
      (role : GoString)
      → Lowly role
      → (actor : GoString) (a : Action F) (s : Store F)
      → (require (guards a) role ≡ false) ⊎ SameTables s (act e grid actor a s).1
  unfolding guards act
  harmless role low actor Routes.get_me s = inr (get_me-SameTables e actor s)
  harmless role low actor Routes.logout s = inr (same s)
  harmless role low actor (Routes.create_room _) s = inl (not_operator role low)
  harmless role low actor (Routes.get_room id) s = inr (room_get-SameTables e id s)
  harmless role low actor (Routes.patch_room _ _) s = inl (not_operator role low)
  harmless role low actor (Routes.delete_room _) s = inl (deleting role low)
  harmless role low actor (Routes.lock_room _) s = inl (not_moderator role low)
  harmless role low actor (Routes.unlock_room _) s = inl (not_moderator role low)
  harmless role low actor (Routes.put_layout _ _) s = inl (not_operator role low)
  harmless role low actor (Routes.get_slots id) s = inr (get_slots-SameTables e id s)
  harmless role low actor (Routes.put_slots _ _) s = inl (not_moderator role low)
  harmless role low actor (Routes.get_participants id) s = inr (get_participants-SameTables e id s)
  harmless role low actor (Routes.kick _ _) s = inl (not_moderator role low)
  harmless role low actor (Routes.start_recording _) s = inl (not_operator role low)
  harmless role low actor (Routes.stop_recording _) s = inl (not_operator role low)
  harmless role low actor (Routes.get_recording id) s = inr (rec_get-SameTables e id s)
  harmless role low actor (Routes.download id) s = inr (rec_download-SameTables e id s)
  harmless role low actor (Routes.delete_recording _) s = inl (not_admin role low)
  harmless role low actor (Routes.create_template _) s = inl (not_operator role low)
  harmless role low actor (Routes.get_template id) s = inr (template_get-SameTables e id s)
  harmless role low actor (Routes.patch_template _ _) s = inl (not_operator role low)
  harmless role low actor (Routes.delete_template _) s = inl (not_operator role low)
  harmless role low actor (Routes.create_user _) s = inl (not_admin role low)
  harmless role low actor (Routes.patch_user _ _) s = inl (not_admin role low)
  harmless role low actor (Routes.delete_user _) s = inl (not_admin role low)

  if-SameTables :
      (b : Bool) (r : Response F) (t : Response F × Store F) (s : Store F)
      → (b ≡ false) ⊎ SameTables s t.1
      → SameTables s (if b then t else (r, s)).1
  if-SameTables true r t s (inl closed) = ground arith
  if-SameTables true r t s (inr unchanged) = unchanged
  if-SameTables false r t s p = same s

  guarded-SameTables :
      (c : Claims) (a : Action F) (s : Store F)
      → Lowly c.role
      → SameTables s (guarded e grid c a s).1
  unfolding guarded
  guarded-SameTables c a s low =
      if-SameTables (require (guards a) c.role) _ _ s (harmless c.role low c.user_id a s)

  parsed-SameTables :
      (r : Result GoString Claims) (a : Action F) (s : Store F)
      → ((c : Claims) → r ≡ ok c → Lowly c.role)
      → SameTables s (after_parse e grid r a s).1
  unfolding after_parse
  parsed-SameTables (err x) a s low = same s
  parsed-SameTables (ok c) a s low = guarded-SameTables c a s (low c refl)

  header-SameTables :
      (parse : GoString → Result GoString Claims) (o : Option GoString) (a : Action F) (s : Store F)
      → ((token : GoString) (c : Claims) → o ≡ some token → parse token ≡ ok c → Lowly c.role)
      → SameTables s (after_header e grid parse o a s).1
  unfolding after_header
  header-SameTables parse none a s low = same s
  header-SameTables parse (some token) a s low =
      parsed-SameTables (parse token) a s (λ c. low token c refl)

  -- Behind Auth, whatever `parse` is, a request changes no table of PostgreSQL and no hash of Redis if
  -- the token of its header, where there is one that `parse` accepts, has a role that is none of admin,
  -- operator and moderator.
  pub authorized-SameTables :
      (parse : GoString → Result GoString Claims) (header : GoString) (a : Action F) (s : Store F)
      → ((token : GoString) (c : Claims)
          → strip_prefix (lit "Bearer ") header ≡ some token
          → parse token ≡ ok c
          → Lowly c.role)
      → SameTables s (authorized e grid parse header a s).1
  unfolding authorized
  authorized-SameTables parse header a s low =
      header-SameTables parse (strip_prefix (lit "Bearer ") header) a s low
