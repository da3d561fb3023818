-- ===== src/Router/Registry.antt =====
-- services/media-router/internal/registry: the workers' heartbeats and the rooms' bindings in Redis.
use vks.Common.{ℕ, List, [], ◌∷◌, ◌++◌, Option, none, some, Result, ok, err}
use vks.Common.GoString.{GoString, lit}
use vks.Common.Int.{ℤ}
use vks.Router.Redis.{Redis, Json}

pub record Worker (F : Type 0) : Type 0 where
  pub id : GoString
  pub grpc_addr : GoString
  pub cpu : F
  pub rooms : ℤ
  pub last_seen : ℕ
  pub version : GoString

abbrev pub key : GoString → GoString
key id = lit "mcu:worker:" ++ id

abbrev pub room_key : GoString → GoString
room_key room = lit "mcu:room:" ++ room

module _ {F : Type 0} (R : Redis) (json : Json (Worker F)) where
  unfoldable pub heartbeat : ℕ → ℕ → Worker F → R.State → Option GoString × R.State
  heartbeat now ttl w s = R.set now (key w.id) (json.encode (record w { last_seen = now })) ttl s

  -- The loop of List: a key that cannot be read or decoded is skipped.
  unfoldable pub collect : ℕ → List GoString → R.State → List (Worker F)
  collect now [] s = []
  collect now (k ∷ ks) s = elim (R.get now k s) [
    | err e ↦ collect now ks s
    | ok none ↦ collect now ks s
    | ok (some v) ↦ elim (json.decode v) [ none ↦ collect now ks s | some w ↦ w ∷ collect now ks s ]
  ]

  unfoldable pub list : ℕ → R.State → Result GoString (List (Worker F))
  unfolding collect
  list now s = elim (R.keys now (key []) s) [ err e ↦ err e | ok ks ↦ ok (collect now ks s) ]

module _ (R : Redis) where
  unfoldable pub bind : ℕ → GoString → GoString → ℕ → R.State → Option GoString × R.State
  bind now room worker ttl s = R.set now (room_key room) worker ttl s

  -- "" if nothing is bound
  unfoldable pub resolve : ℕ → GoString → R.State → Result GoString GoString
  resolve now room s = elim (R.get now (room_key room) s) [
    | err e ↦ err (lit "redis get: " ++ e)
    | ok none ↦ ok []
    | ok (some v) ↦ ok v
  ]
