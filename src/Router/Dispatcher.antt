-- ===== src/Router/Dispatcher.antt =====
-- services/media-router/internal/dispatcher: Pick gives a room its media worker.
pub mod Sticky
use Prim.Native.Nat.{bit_xor}
use vks.Common.{
  ℕ, suc, ◌+◌, ◌*◌, ◌%◌, ◌^◌, Bool, true, false, not, ◌&&◌, ◌||◌, List, [], ◌∷◌, ◌++◌, Option, none,
  some, Result, ok, err, if◌then◌else◌, ◌==◌, ℕ_eq, length, get_elem?,
}
use vks.Common.GoString.{GoString, lit, string_eq, is_empty}
use vks.Common.Int.{ℤ, ltb_ℤ}
use vks.Common.Float.{Float64}
use vks.Router.Redis.{Redis, Json}
use vks.Router.Registry.{Worker, list, bind, resolve}

-- hash/fnv, 32-bit FNV-1a
unfoldable pub fnv32a : ℕ → GoString → ℕ
fnv32a h [] = h
fnv32a h (b ∷ s) = fnv32a (bit_xor h b * 16777619 % 2 ^ 32) s

unfoldable pub hash_index : GoString → ℕ → ℕ
unfolding fnv32a
hash_index s n = if n == 0 then 0 else fnv32a 2166136261 s % n

-- The first worker with an id.
unfoldable pub find : {F : Type 0} → GoString → List (Worker F) → Option (Worker F)
find id [] = none
find id (w ∷ ws) = if w.id == id then some w else find id ws

abbrev pub no_workers : GoString
no_workers = lit "no workers available"

module _ {F : Type 0} (fl : Float64 F) where
  open fl use {lt}

  -- The comparison of the sort: by load of the processor, then by rooms.
  unfoldable pub lighter : Worker F → Worker F → Bool
  lighter v w = if lt v.cpu w.cpu || lt w.cpu v.cpu then lt v.cpu w.cpu else ltb_ℤ v.rooms w.rooms

  unfoldable pub insert_by_load : Worker F → List (Worker F) → List (Worker F)
  insert_by_load w [] = w ∷ []
  insert_by_load w (v ∷ vs) = if lighter v w then v ∷ insert_by_load w vs else w ∷ v ∷ vs

  -- sort.Slice by `lighter`; Go leaves the order of workers of equal load open.
  unfoldable pub sort_by_load : List (Worker F) → List (Worker F)
  unfolding insert_by_load
  sort_by_load [] = []
  sort_by_load (w ∷ ws) = insert_by_load w (sort_by_load ws)

  module _ (R : Redis) (json : Json (Worker F)) where
    unfoldable pub bound_to :
        Worker F → Option GoString × R.State → Result GoString (Worker F) × R.State
    bound_to chosen (none, s) = (ok chosen, s)
    bound_to chosen (some e, s) = (err e, s)

    -- The binding of a room to the worker chosen.
    unfoldable pub bind_chosen :
        ℕ → ℕ → GoString → Option (Worker F) → R.State → Result GoString (Worker F) × R.State
    unfolding bound_to
    bind_chosen now ttl room none s = (err [], s)
    bind_chosen now ttl room (some chosen) s = bound_to chosen (bind R now room chosen.id ttl s)

    -- The choice of a worker for a room that has none. An index past the end, where Go panics, is
    -- the error "".
    unfoldable pub choose :
        ℕ → ℕ → GoString → List (Worker F) → R.State → Result GoString (Worker F) × R.State
    choose now ttl room [] s = (err no_workers, s)
    choose now ttl room (w ∷ ws) s =
        bind_chosen now ttl room
          (get_elem? (sort_by_load (w ∷ ws)) (hash_index room (length (w ∷ ws)))) s

    unfoldable pub choose_listed :
        ℕ
        → ℕ
        → GoString
        → Result GoString (List (Worker F))
        → R.State
        → Result GoString (Worker F) × R.State
    choose_listed now ttl room (err e) s = (err e, s)
    choose_listed now ttl room (ok ws) s = choose now ttl room ws s

    -- What Pick does once it has read the binding and, if there is one, the list of workers.
    unfoldable pub bound :
        ℕ
        → ℕ
        → GoString
        → GoString
        → Result GoString (List (Worker F))
        → R.State
        → Result GoString (Worker F) × R.State
    bound now ttl room id (err e) s = (err e, s)
    bound now ttl room id (ok ws) s = elim (find id ws) [
      | some w ↦ (ok w, s)
      | none ↦ choose_listed now ttl room (list R json now s) s
    ]

    -- Pick behind the answer of Resolve, of which an error counts as no binding.
    unfoldable pub with_binding :
        ℕ → ℕ → GoString → Result GoString GoString → R.State → Result GoString (Worker F) × R.State
    with_binding now ttl room (err e) s = choose_listed now ttl room (list R json now s) s
    with_binding now ttl room (ok id) s =
        if is_empty id
        then choose_listed now ttl room (list R json now s) s
        else bound now ttl room id (list R json now s) s

    unfoldable pub pick : ℕ → ℕ → GoString → R.State → Result GoString (Worker F) × R.State
    pick now ttl room s = with_binding now ttl room (resolve R now room s) s
