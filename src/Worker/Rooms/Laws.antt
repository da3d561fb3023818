-- ===== src/Worker/Rooms/Laws.antt =====
-- A room and its pipeline live and die together.
use vks.Common.{◌≡◌, refl, false, Option, none, some, Result, ok, err, if◌then◌else◌, ◌==◌}
use vks.Common.GoString.{GoString, string_eq}
use vks.Common.Float.{Float64}
use vks.Common.Dict.{
  Dict, lookup, erase, lookup-insert_ne, lookup-erase, lookup-insert_self, lookup-erase_self,
}
use vks.Worker.Pipelines.{Spec, Answers}
use vks.Worker.Pipelines
use vks.Worker.Room.State.{World}
use vks.Worker.Rooms.{
  Registry, spec_of, get, destroy, end_there, get_or_create, enter_room, existing_or_new,
}

module _ {F : Type 0} where
  rooms-end_there :
      (id : GoString) (found : Option (World F)) (r : Registry F)
      → (end_there id found r).rooms ≡ r.rooms
  unfolding end_there Pipelines.destroy
  rooms-end_there id none r = refl
  rooms-end_there id (some s) r = refl

  pipes-end_there :
      (id : GoString) (s : World F) (r : Registry F)
      → Pipelines.get id (end_there id (some s) r).pipes ≡ none
  unfolding end_there Pipelines.destroy Pipelines.get
  pipes-end_there id s r = lookup-erase_self id r.pipes

  pub get-destroy :
      (id other : GoString) (r : Registry F)
      → get other (destroy id r) ≡ (if id == other then none else get other r)
  unfolding destroy get
  get-destroy id other r =
      rw (rooms-end_there id (lookup id r.rooms) (record r { rooms = erase id r.rooms }))
        (lookup-erase other id r.rooms)

  -- Destroy of a room that is there takes it and its pipeline out of the worker, and leaves every other
  -- room.
  pub destroy_lem :
      (id other : GoString) (r : Registry F) (s : World F)
      → get id r ≡ some s
      → (get other (destroy id r) ≡ (if id == other then none else get other r))
        × (Pipelines.get id (destroy id r).pipes ≡ none)
  unfolding destroy get
  destroy_lem id other r s there = (get-destroy id other r, rw there (pipes-end_there id s _))

module _ {F : Type 0} (fl : Float64 F) where
  enter_room-get :
      (id : GoString) (p : Result GoString Spec × Dict GoString Spec) (r : Registry F) (s : World F)
      → (enter_room fl id p r).0 ≡ ok s
      → lookup id (enter_room fl id p r).1.rooms ≡ some s
  unfolding enter_room
  enter_room-get id (err e, pipes) r s h = cc
  enter_room-get id (ok p, pipes) r s h = cc (h, lookup-insert_self id _ r.rooms)

  existing_or_new-get :
      (id : GoString) (a : Answers) (found : Option (World F)) (r : Registry F) (s : World F)
      → lookup id r.rooms ≡ found
      → (existing_or_new fl id a found r).0 ≡ ok s
      → lookup id (existing_or_new fl id a found r).1.rooms ≡ some s
  unfolding existing_or_new
  existing_or_new-get id a none r s free h =
      enter_room-get id (Pipelines.get_or_create (spec_of r.config id) a r.pipes) r s h
  existing_or_new-get id a (some t) r s there h = cc

  get_or_create-get :
      (id : GoString) (a : Answers) (r : Registry F) (s : World F)
      → (get_or_create fl id a r).0 ≡ ok s
      → lookup id (get_or_create fl id a r).1.rooms ≡ some s
  unfolding get_or_create
  get_or_create-get id a r s h = existing_or_new-get id a (lookup id r.rooms) r s refl h

  -- After a GetOrCreate that succeeds, a second one finds the same room whatever the pipeline would
  -- answer, and changes nothing.
  pub get_or_create_twice :
      (id : GoString) (a b : Answers) (r : Registry F) (s : World F)
      → (get_or_create fl id a r).0 ≡ ok s
      → get_or_create fl id b (get_or_create fl id a r).1 ≡ (ok s, (get_or_create fl id a r).1)
  unfolding get_or_create existing_or_new
  get_or_create_twice id a b r s h = rw (get_or_create-get id a r s h) refl

  get-enter_room :
      (id other : GoString) (p : Result GoString Spec × Dict GoString Spec) (r : Registry F)
      → (id == other) ≡ false
      → get other (enter_room fl id p r).1 ≡ get other r
  unfolding enter_room get
  get-enter_room id other (err e, pipes) r ne = refl
  get-enter_room id other (ok p, pipes) r ne = lookup-insert_ne other id _ r.rooms ne

  -- GetOrCreate of one room leaves the others alone.
  pub get-get_or_create :
      (id other : GoString) (a : Answers) (r : Registry F)
      → (id == other) ≡ false
      → get other (get_or_create fl id a r).1 ≡ get other r
  unfolding get_or_create existing_or_new
  get-get_or_create id other a r ne =
      elim (lookup id r.rooms)
        as (λ found. get other (existing_or_new fl id a found r).1 ≡ get other r) [
          | none ↦
              get-enter_room id other (Pipelines.get_or_create (spec_of r.config id) a r.pipes) r ne
          | some s ↦ refl
        ]
