-- ===== src/Examples/Dispatch.antt =====
-- A dispatcher on a Redis that is kept in memory.
use vks.Common.{
  ℕ, ◌+◌, ◌≤◌, ◌<◌, ◌≡◌, refl, sym, ap, List, [], ◌∷◌, Option, none, some, ok, err, arith,
  if◌then◌else◌, ltb, inl, ◌⊎◌,
}
use vks.Common.GoString.{GoString, GoString-discrete, lit, string_eq, strip_prefix}
use vks.Common.Int.{pos}
use vks.Common.Dict.{Dict, lookup, insert, lookup-insert_self, lookup-insert_ne}
use native.Mathlib.Decide.{ℕ_discrete}
use vks.Router.Redis.{Redis, IsLawful, Json, untouched, written}
use vks.Router.Registry.{Worker, list, resolve, bind, heartbeat, collect}
use vks.Router.Dispatcher.{
  pick, find, with_binding, choose_listed, choose, bind_chosen, bound_to, sort_by_load,
  insert_by_load, hash_index, fnv32a,
}
use vks.Router.Dispatcher.Sticky.{pick_sticky, pick_finds}
use vks.Examples.Numbers.{Num, num, exact}

-- A value with the time at which it expires.
abbrev Memory : Type 0
Memory = Dict GoString (GoString × ℕ)

abbrev alive : ℕ → Option (GoString × ℕ) → Option GoString
alive now none = none
alive now (some (v, until)) = if ltb now until then some v else none

unfoldable with_prefix : GoString → Memory → List GoString
with_prefix p [] = []
with_prefix p ((k, v) ∷ m) = elim (strip_prefix p k) [
  | none ↦ with_prefix p m
  | some _ ↦ k ∷ with_prefix p m
]

abbrev memory : Redis
memory = record {
  State = Memory;
  set = λ now k v ttl s. (none, insert k (v, now + ttl) s);
  get = λ now k s. ok (alive now (lookup k s));
  keys = λ now p s. ok (with_prefix p s);
}

get_what_was_set :
    (now t ttl : ℕ) (k v : GoString) (s s' : Memory)
    → memory.set now k v ttl s ≡ (none, s')
    → now ≤ t
    → t < now + ttl
    → (memory.get t k s' ≡ ok (some v)) ⊎ ((e : GoString) × (memory.get t k s' ≡ err e))
get_what_was_set now t ttl k v s s' wrote le lt =
    inl (rw (sym (ap (λ r. r.1) wrote), lookup-insert_self k (v, now + ttl) s) (ground arith))

memory-IsLawful : IsLawful memory
memory-IsLawful = record {
  get-set = get_what_was_set;
  get-set_other = λ t t' ttl k k' v s ne. inl (rw (lookup-insert_ne k' k (v, t + ttl) s ne) refl);
}

abbrev worker : GoString → Worker Num
worker id = record {
  id = id;
  grpc_addr = [];
  cpu = exact (pos 1);
  rooms = pos 0;
  last_seen = 0;
  version = [];
}

-- A worker is stored as its id.
abbrev by_id : Json (Worker Num)
by_id = record { encode = λ w. w.id; decode = λ s. some (worker s) }

abbrev one_worker : Memory
one_worker = (lit "mcu:worker:w", (lit "w", 1000)) ∷ []

-- The room is given its worker at time 5.
abbrev afterwards : Memory
afterwards = (pick num memory by_id 5 100 (lit "r") one_worker).1

-- Another worker tells of itself in between.
abbrev later_on : Memory
later_on = (heartbeat memory by_id 40 100 (worker (lit "x")) afterwards).1

sticky_example :
    (pick num memory by_id 50 100 (lit "r") later_on ≡ (ok (worker (lit "w")), later_on))
    × ((worker (lit "w")).id ≡ lit "w")
unfolding pick with_binding choose_listed choose bind_chosen bound_to sort_by_load insert_by_load
    hash_index fnv32a resolve list collect bind heartbeat find lookup insert strip_prefix
    with_prefix GoString-discrete ℕ_discrete
sticky_example =
    pick_sticky num memory by_id memory-IsLawful 5 50 100 (lit "r") one_worker afterwards later_on
      (worker (lit "w")) (worker (lit "w")) (worker (lit "w") ∷ worker (lit "x") ∷ []) refl refl
      refl (omega arith) (omega arith)
      (written 40 100 (lit "mcu:worker:x") (lit "x") refl untouched) (λ e h. cc) refl refl

finds_example : (v : Worker Num) × ((pick num memory by_id 5 100 (lit "r") one_worker).0 ≡ ok v)
unfolding resolve list collect bind lookup strip_prefix with_prefix GoString-discrete ℕ_discrete
finds_example =
    pick_finds num memory by_id 5 100 (lit "r") (worker (lit "w")) [] one_worker refl refl
      (λ v. refl)
