-- ===== src/Examples/Administration.antt =====
-- Requests to the control plane: a viewer, an operator and an administrator of two rooms.
use vks.Common.{
  sym, ap, arith, ◌≤◌, ℕ, ◌≡◌, refl, true, false, List, [], ◌∷◌, none, some, Result, ok, err,
}
use native.Mathlib.Decide.{ℕ_discrete}
use vks.Common.GoString.{GoString-discrete, GoString, lit, string_eq, strip_prefix}
use vks.Common.GoString
use vks.Common.Int.{pos}
use vks.Control.Domain.{Layout, role_admin, role_operator, role_viewer}
use vks.Control.Tables.{UserRow}
use vks.Control.Store.{text, boolean, other, Row, Store, Env}
use vks.Control.Sql.{room_column, build, execute}
use vks.Control.Sql.Refines.{updated, execute-build}
use vks.Control.Recordings.Running.{count_running}
use vks.Control.Routes.{Claims, Action, authorized}
use vks.Control.Routes
use vks.Control.Routes.Roles.{SameTables, Lowly, authorized-SameTables}
use vks.Control.Routes.OneRunning.{Request, serve, serve-OneRunning}
use vks.Control.Routes.Spared.{Spared}
use vks.Control.Routes.Admins.{NotAdmin, authorized-Spared}
use vks.Control.Auth.{RefreshAnswers}

abbrev grid : Layout ℕ
grid = record {
  mode = lit "grid";
  width = pos 1280;
  height = pos 720;
  background = record { color = []; url = [] };
  logo = record { url = []; x = 0; y = 0; w = 0; h = 0 };
  cells = [];
  show_names = none;
  name_bg_alpha = none;
  name_bg_color = none;
  name_font_size = none;
  name_font_color = none;
}

abbrev pub around : GoString → ℕ → Env ℕ
around id now = record {
  now = now;
  new_id = id;
  normal = λ name. name;
  hash = λ password. ok (lit "hashed");
  marshal = λ l. lit "{}";
  marshal_value = λ v. lit "{}";
  unmarshal = λ t. grid;
  to_text = λ i. lit "0";
  parse_uuid = λ t. ok t;
  is_participant = λ t. true;
  pub_url = lit "https://h";
  has_signaling = true;
  query = none;
  first_query = none;
  command = none;
  second_command = none;
  alias_set = none;
  alias_delete = none;
  presence_command = none;
  audit = none;
  media = none;
  signaling = none;
  roster = ok [];
  stopped = ok (lit "/r.webm", pos 9);
}

abbrev daily : Row
daily = record { id = lit "r1"; columns = (lit "name", text (lit "daily")) ∷ [] }

abbrev weekly : Row
weekly = record { id = lit "r2"; columns = (lit "name", text (lit "weekly")) ∷ [] }

abbrev ann : UserRow
ann = record {
  id = lit "u1";
  email = lit "a";
  name = lit "Ann";
  password_hash = lit "h";
  role = role_admin;
  disabled = false;
  created_at = 1;
}

abbrev pub tables : Store ℕ
tables = record {
  db = record { users = (lit "u1", ann) ∷ []; tokens = []; audit = [] };
  rooms = daily ∷ weekly ∷ [];
  recordings = [];
  templates = [];
  aliases = (lit "daily", lit "r1") ∷ (lit "weekly", lit "r2") ∷ [];
  presence = [];
  asked = [];
}

-- Each token is the role that it stands for.
abbrev trusting : GoString → Result GoString Claims
trusting token = ok (record { user_id = lit "u1"; role = token })

abbrev the_viewer : GoString → Result GoString Claims
the_viewer token = ok (record { user_id = lit "u2"; role = role_viewer })

abbrev the_operator : GoString → Result GoString Claims
the_operator token = ok (record { user_id = lit "u2"; role = role_operator })

abbrev left_token : RefreshAnswers
left_token = record {
  now = 8;
  parse_refresh = λ token. ok (lit "j1", lit "u1");
  parse_uuid = λ text. ok text;
  is_valid = none;
  get_by_id = none;
  revoke = none;
  issued = record {
    access_token = ok (lit "access", 20);
    refresh_token = ok (lit "next", lit "j2", 200);
    store = none;
  };
}

-- The role that an accepted token has
abbrev role_in : Result GoString Claims → GoString
role_in (ok c) = c.role
role_in (err x) = []

of_viewer : (c : Claims) → the_viewer (lit "t") ≡ ok c → Lowly c.role
unfolding GoString-discrete ℕ_discrete
of_viewer c parsed = rw (sym (ap role_in parsed)) refl

of_operator : (c : Claims) → the_operator (lit "t") ≡ ok c → NotAdmin c.role
unfolding GoString-discrete ℕ_discrete
of_operator c parsed = rw (sym (ap role_in parsed)) refl

viewer_example :
    SameTables tables
      (authorized
        (around (lit "x") 7)
        grid
        the_viewer
        (lit "Bearer t")
        (Routes.delete_room (lit "r1"))
        tables).1
viewer_example =
    authorized-SameTables (around (lit "x") 7) grid the_viewer (lit "Bearer t")
      (Routes.delete_room (lit "r1")) tables (λ token c there. of_viewer c)

operator_example :
    Spared tables
      (authorized
        (around (lit "x") 7)
        grid
        the_operator
        (lit "Bearer t")
        (Routes.patch_room (lit "r1") (some ((lit "name", text (lit "Friday")) ∷ [])))
        tables).1
operator_example =
    authorized-Spared (around (lit "x") 7) grid the_operator (lit "Bearer t")
      (Routes.patch_room (lit "r1") (some ((lit "name", text (lit "Friday")) ∷ []))) tables
      (λ token c there. of_operator c)

abbrev asking : GoString → ℕ → Action ℕ → Request ℕ
asking id now a = record {
  env = around id now;
  parse = trusting;
  header = lit "Bearer operator";
  action = a;
}

abbrev history : List (Request ℕ)
history =
    asking (lit "x1") 5 (Routes.start_recording (lit "r1"))
    ∷ asking (lit "x2") 6 (Routes.start_recording (lit "r1"))
    ∷ asking (lit "x3") 7 (Routes.stop_recording (lit "r1"))
    ∷ asking (lit "x4") 8 (Routes.start_recording (lit "r1"))
    ∷ []

recording_example : count_running (lit "r1") (serve grid history tables).recordings ≤ 1
unfolding count_running
recording_example =
    serve-OneRunning grid history tables (refl, (refl, (tt, (refl, tt)))) (λ room. omega arith)
      (lit "r1")

update_example :
    execute
      (other (lit "now"))
      (build room_column
        ((lit "locked", boolean true) ∷ (lit "id", text (lit "r9")) ∷ [])
        (lit "r2"))
      (daily ∷ weekly ∷ [])
    ≡ updated room_column
        (other (lit "now"))
        ((lit "locked", boolean true) ∷ (lit "id", text (lit "r9")) ∷ [])
        (lit "r2")
        (daily ∷ weekly ∷ [])
update_example =
    execute-build room_column (other (lit "now"))
      ((lit "locked", boolean true) ∷ (lit "id", text (lit "r9")) ∷ []) (lit "r2")
      (daily ∷ weekly ∷ [])
