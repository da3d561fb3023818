-- ===== src/Control/Store.antt =====
-- What the use cases of the control plane work on: the tables of PostgreSQL (internal/adapters/repo/
-- postgres, migrations), the hashes of Redis (repo/redisrepo), and the requests to other services.
use vks.Common.{ℕ, Bool, List, [], ◌∷◌, ◌++◌, Option, none, some, Result, if◌then◌else◌, ◌==◌}
use vks.Common.GoString.{GoString, string_eq}
use vks.Common.Int.{ℤ, pos}
use vks.Common.Dict.{Dict, insert, erase}
use vks.Control.Tables.{Db, Failure, write_audit}
use vks.Control.Domain.{Layout}

-- A value of a JSON object or of a column: `any` of Go. `json` is marshalled text.
pub data Value : Type 0 where
  text : GoString → Value
  boolean : Bool → Value
  json : GoString → Value
  other : GoString → Value

-- A row of rooms or of layout_templates: its id, and its other columns by their names.
pub record Row : Type 0 where
  pub id : GoString
  pub columns : Dict GoString Value

-- postgres.RecordingRow
pub record RecordingRow : Type 0 where
  pub id : GoString
  pub room_id : GoString
  pub status : GoString
  pub started_at : ℕ
  pub ended_at : Option ℕ
  pub size_bytes : Option ℤ
  pub url : Option GoString

-- A request to the media worker or to signaling.
pub data Ask (F : Type 0) : Type 0 where
  destroy_room : GoString → Ask F
  update_layout : GoString → Layout F → Ask F
  assign_slots : GoString → Dict ℤ GoString → Ask F
  get_roster : GoString → Ask F
  start_recording : GoString → Ask F
  stop_recording : GoString → Ask F
  kick_peer : GoString → GoString → Ask F
  broadcast_layout : GoString → Layout F → Ask F
  broadcast_slots : GoString → Dict ℤ GoString → Ask F

-- The tables, the aliases of rooms in Redis by their keys, the participants in Redis by room and peer,
-- and what has been asked of other services.
pub record Store (F : Type 0) : Type 0 where
  pub db : Db
  pub rooms : List Row
  pub recordings : List RecordingRow
  pub templates : List Row
  pub aliases : Dict GoString GoString
  pub presence : Dict GoString (Dict GoString GoString)
  pub asked : List (Ask F)

-- What the surroundings answer during one request. Of queries, whether they fail; of libraries, their
-- functions; of the database, what it fills in; of the media worker, its answers.
pub record Env (F : Type 0) : Type 0 where
  pub now : ℕ
  pub new_id : GoString
  pub normal : GoString → GoString
  pub hash : GoString → Result GoString GoString
  pub marshal : Layout F → GoString
  pub marshal_value : Value → GoString
  pub unmarshal : GoString → Layout F
  pub to_text : ℤ → GoString
  pub parse_uuid : GoString → Result GoString GoString
  pub is_participant : GoString → Bool
  pub pub_url : GoString
  pub has_signaling : Bool
  pub query : Failure
  pub first_query : Failure
  pub command : Failure
  pub second_command : Failure
  pub alias_set : Failure
  pub alias_delete : Failure
  pub presence_command : Failure
  pub audit : Failure
  pub media : Failure
  pub signaling : Failure
  pub roster : Result GoString (Dict GoString GoString)
  pub stopped : Result GoString (GoString × ℤ)

module _ {F : Type 0} where
  abbrev pub ask : Ask F → Store F → Store F
  ask a s = record s { asked = s.asked ++ a ∷ [] }

  -- now() of PostgreSQL
  abbrev pub stamp : Env F → Value
  stamp e = other (e.to_text (pos e.now))

  -- Audit.Write, whose error is dropped
  unfoldable pub note : Env F → GoString → GoString → GoString → Store F → Store F
  unfolding write_audit
  note e actor action target s = record s {
    db = write_audit e.audit (record { actor = some actor; action = action; target = target }) s.db;
  }

  -- `strings.ToLower(strings.TrimSpace(name))` is the key of an alias, but for a prefix.
  unfoldable pub set_alias : Env F → GoString → GoString → Store F → Store F
  set_alias e [] id s = s
  set_alias e (c ∷ name) id s = elim e.alias_set [
    | none ↦ record s { aliases = insert (e.normal (c ∷ name)) id s.aliases }
    | some _ ↦ s
  ]

  unfoldable pub delete_alias : Env F → GoString → Store F → Store F
  delete_alias e [] s = s
  delete_alias e (c ∷ name) s = elim e.alias_delete [
    | none ↦ record s { aliases = erase (e.normal (c ∷ name)) s.aliases }
    | some _ ↦ s
  ]

-- `SELECT … WHERE id=$1`
unfoldable pub find_row : GoString → List Row → Option Row
find_row id [] = none
find_row id (r ∷ rs) = let rest = find_row id rs in if r.id == id then some r else rest

-- `DELETE … WHERE id=$1`
unfoldable pub delete_row : GoString → List Row → List Row
delete_row id [] = []
delete_row id (r ∷ rs) = let rest = delete_row id rs in if r.id == id then rest else r ∷ rest

-- A column of type text.
abbrev pub text_of : Option Value → GoString
text_of (some (text s)) = s
text_of v = []

abbrev pub json_of : Option Value → GoString
json_of (some (json s)) = s
json_of v = []
