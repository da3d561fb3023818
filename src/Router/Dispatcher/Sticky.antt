-- ===== src/Router/Dispatcher/Sticky.antt =====
-- A room keeps its worker as long as the binding lives and the worker is listed.
use vks.Common.{
  ℕ, zero, suc, ◌+◌, ◌≤◌, ◌<◌, ◌≡◌, ◌≢◌, ◌∙◌, sym, refl, ap, false, List, [], ◌∷◌, Option, none,
  some, Result, ok, err, arith, length, get_elem?, inl, inr,
}
use vks.Common.GoString.{GoString, string_eq, is_empty}
use vks.Common.Float.{Float64}
use vks.Router.Redis.{Redis, IsLawful, Json, Since, Since-get}
use vks.Router.Registry.{Worker, list, bind, resolve, room_key}
use vks.Router.Dispatcher.{
  hash_index, find, sort_by_load, insert_by_load, choose, choose_listed, bound, bind_chosen,
  with_binding, bound_to, pick,
}

hash_index-lt : (s : GoString) (n : ℕ) → 0 < n → hash_index s n < n
unfolding hash_index
hash_index-lt s n h = ground arith

get_elem?-some :
    {A : Type 0} (xs : List A) (i : ℕ) → i < length xs → (x : A) × (get_elem? xs i ≡ some x)
get_elem?-some [] i h = absurd (omega arith)
get_elem?-some (x ∷ xs) zero h = (x, refl)
get_elem?-some (x ∷ xs) (suc i) h = get_elem?-some xs i (omega arith)

find-id :
    {F : Type 0} (id : GoString) (ws : List (Worker F)) (v : Worker F)
    → find id ws ≡ some v
    → v.id ≡ id
unfolding find
find-id id [] v h = absurd (cc)
find-id id (w ∷ ws) v h = ground (arith, find-id id ws v)

module _ {F : Type 0} (fl : Float64 F) where
  length-insert_by_load :
      (w : Worker F) (ws : List (Worker F)) → length (insert_by_load fl w ws) ≡ suc (length ws)
  unfolding insert_by_load
  length-insert_by_load w [] = refl
  length-insert_by_load w (v ∷ vs) = ground (arith, length-insert_by_load w vs)

  length-sort_by_load : (ws : List (Worker F)) → length (sort_by_load fl ws) ≡ length ws
  unfolding sort_by_load
  length-sort_by_load [] = refl
  length-sort_by_load (w ∷ ws) =
      length-insert_by_load w (sort_by_load fl ws) ∙ ap suc (length-sort_by_load ws)

  -- The worker that a room without a binding gets.
  chosen-there :
      (room : GoString) (w : Worker F) (ws : List (Worker F))
      → (v : Worker F) × (get_elem? (sort_by_load fl (w ∷ ws)) (hash_index room (length (w ∷ ws)))
          ≡ some v)
  chosen-there room w ws =
      get_elem?-some (sort_by_load fl (w ∷ ws)) (hash_index room (length (w ∷ ws)))
        (ground (arith, length-sort_by_load (w ∷ ws), hash_index-lt room (length (w ∷ ws))))

  module _ (R : Redis) (json : Json (Worker F)) where
    bound_to-ok :
        (c : Worker F) (b : Option GoString × R.State)
        → b.0 ≡ none
        → (bound_to fl R json c b).0 ≡ ok c
    unfolding bound_to
    bound_to-ok c (none, s) h = refl
    bound_to-ok c (some e, s) h = absurd (cc)

    bound_to-writes :
        (c v : Worker F) (b : Option GoString × R.State) (s : R.State)
        → bound_to fl R json c b ≡ (ok v, s)
        → (c ≡ v) × (b ≡ (none, s))
    unfolding bound_to
    bound_to-writes c v (none, t) s h = (cc, cc)
    bound_to-writes c v (some e, t) s h = absurd (cc)

    -- If Redis takes every write, a room without a binding gets a worker whenever one is listed.
    pub pick_finds :
        (now ttl : ℕ) (room : GoString) (w : Worker F) (ws : List (Worker F)) (s : R.State)
        → resolve R now room s ≡ ok []
        → list R json now s ≡ ok (w ∷ ws)
        → ((v : Worker F) → (bind R now room v.id ttl s).0 ≡ none)
        → (v : Worker F) × ((pick fl R json now ttl room s).0 ≡ ok v)
    unfolding pick with_binding choose_listed choose bind_chosen
    pick_finds now ttl room w ws s free listed writes =
        let (v, there) = chosen-there room w ws in
        (v, rw (free, listed, there) (bound_to-ok v (bind R now room v.id ttl s) (writes v)))

    bind_chosen-writes :
        (now ttl : ℕ) (room : GoString) (chosen : Option (Worker F)) (v : Worker F) (s s' : R.State)
        → bind_chosen fl R json now ttl room chosen s ≡ (ok v, s')
        → bind R now room v.id ttl s ≡ (none, s')
    unfolding bind_chosen
    bind_chosen-writes now ttl room none v s s' h = absurd (cc)
    bind_chosen-writes now ttl room (some c) v s s' h =
        let (same, done) = bound_to-writes c v (bind R now room c.id ttl s) s' h in
        rw (sym same) done

    choose_listed-writes :
        (now ttl : ℕ) (room : GoString) (listed : Result GoString (List (Worker F))) (v : Worker F)
        (s s' : R.State)
        → choose_listed fl R json now ttl room listed s ≡ (ok v, s')
        → bind R now room v.id ttl s ≡ (none, s')
    unfolding choose_listed choose
    choose_listed-writes now ttl room (err e) v s s' h = absurd (cc)
    choose_listed-writes now ttl room (ok []) v s s' h = absurd (cc)
    choose_listed-writes now ttl room (ok (w ∷ ws)) v s s' h =
        bind_chosen-writes now ttl room _ v s s' h

    with_binding-writes :
        (now ttl : ℕ) (room : GoString) (r : Result GoString GoString) (v : Worker F)
        (s s' : R.State)
        → r ≡ ok []
        → with_binding fl R json now ttl room r s ≡ (ok v, s')
        → bind R now room v.id ttl s ≡ (none, s')
    unfolding with_binding
    with_binding-writes now ttl room (err e) v s s' free h = absurd (cc)
    with_binding-writes now ttl room (ok (c ∷ id)) v s s' free h = absurd (cc)
    with_binding-writes now ttl room (ok []) v s s' free h =
        choose_listed-writes now ttl room (list R json now s) v s s' h

    resolve-bound :
        (now : ℕ) (room id : GoString) (s : R.State)
        → R.get now (room_key room) s ≡ ok (some id)
        → resolve R now room s ≡ ok id
    unfolding resolve
    resolve-bound now room id s h = rw (resolve, h) refl

    -- Once a room without a binding has been given a worker whose id is not empty, a later Pick before the
    -- time to live has run out gives a worker of the same id and changes nothing in Redis, if only other keys
    -- have been written since (heartbeats, bindings of other rooms), the worker is listed and Redis
    -- answers the read.
    pub pick_sticky :
        (law : IsLawful R) (now t ttl : ℕ) (room : GoString) (s s' u : R.State) (w v : Worker F)
        (ws : List (Worker F))
        → resolve R now room s ≡ ok []
        → pick fl R json now ttl room s ≡ (ok w, s')
        → is_empty w.id ≡ false
        → now ≤ t
        → t < now + ttl
        → Since R (room_key room) s' u
        → ((e : GoString) → R.get t (room_key room) u ≢ err e)
        → list R json t u ≡ ok ws
        → find w.id ws ≡ some v
        → (pick fl R json t ttl room u ≡ (ok v, u)) × (v.id ≡ w.id)
    unfolding pick with_binding bound bind
    pick_sticky law now t ttl room s s' u w v ws free first has_id le lt since answers listed
          found =
        let wrote = with_binding-writes now ttl room (resolve R now room s) w s s' free first in
        let stored = law.get-set now t ttl (room_key room) w.id s s' wrote le lt in
        elim (Since-get law t (room_key room) w.id since stored) [
          | inr (e, failed) ↦ absurd (answers e failed)
          | inl there ↦ (
            rw (resolve-bound t room w.id u there, has_id, listed, bound, found) refl,
            find-id w.id ws v found,
          )
        ]
