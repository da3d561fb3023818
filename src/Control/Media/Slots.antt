-- ===== src/Control/Media/Slots.antt =====
-- What an operator assigns to the slots of a room is what the worker of the room assigns.
use vks.Common.{◌≡◌, refl, sym, ap, ◌∙◌, [], ◌∷◌, ◌++◌, Option, none, some, ok, arith}
use mathlib.Core.List.{append_assoc, append-nil}
use native.Mathlib.Decide.{ℕ_discrete}
use vks.Common.Lists.{All}
use vks.Common.GoString.{GoString}
use vks.Common.Int.{ℤ, ℤ_eq}
use vks.Common.Float.{Float64}
use vks.Common.Decimal.{Fits, scan_int-itoa}
use vks.Common.Dict.{Dict, lookup, insert, lookup-insert, NodupKeys}
use vks.Worker.Room.State.{World}
use vks.Worker.Room.Members.{assign}
use vks.Worker.Rooms.{get}
use vks.Worker.Handlers.{Api, parse_assignment, store, handle_assign_slots, assign_in}
use vks.Control.Media.{slots_body, acknowledged}

-- No key of the second map is in the first.
abbrev IsFresh : Dict ℤ GoString → Dict ℤ GoString → Type 0
IsFresh d = All (λ (k, _). lookup k d ≡ none)

insert-fresh :
    (k : ℤ) (v : GoString) (d : Dict ℤ GoString)
    → lookup k d ≡ none
    → insert k v d ≡ d ++ (k, v) ∷ []
unfolding insert lookup
insert-fresh k v [] fresh = refl
insert-fresh k v ((j, w) ∷ d) fresh = ground (arith, insert-fresh k v d)

insert-IsFresh :
    (k : ℤ) (v : GoString) (d m : Dict ℤ GoString)
    → lookup k m ≡ none
    → IsFresh d m
    → IsFresh (insert k v d) m
unfolding lookup
insert-IsFresh k v d [] other fresh = tt
insert-IsFresh k v d ((j, w) ∷ m) other (here, there) =
    (ground (arith, lookup-insert j k v d), insert-IsFresh k v d m (ground arith) there)

nil-IsFresh : (m : Dict ℤ GoString) → IsFresh [] m
unfolding lookup
nil-IsFresh [] = tt
nil-IsFresh (e ∷ m) = (refl, nil-IsFresh m)

parse_assignment-slots_body :
    (m d : Dict ℤ GoString)
    → All (λ (k, _). Fits k) m
    → NodupKeys m
    → IsFresh d m
    → parse_assignment (slots_body m) d ≡ d ++ m
unfolding parse_assignment slots_body
parse_assignment-slots_body [] d fits once fresh = sym (append-nil d)
parse_assignment-slots_body ((k, v) ∷ m) d (fit, fits) (new, once) (here, there) =
    let rest =
      parse_assignment-slots_body m (insert k v d) fits once (insert-IsFresh k v d m new there) in
    rw (scan_int-itoa k fit, parse_assignment)
      (rest ∙ (ap (λ l. l ++ m) (insert-fresh k v d here) ∙ append_assoc d ((k, v) ∷ []) m))

module _ {F : Type 0} (fl : Float64 F) where
  -- AssignSlots of the control plane's client, handed to the worker's handler: for a map of numbers of
  -- 64 bits no error comes back, the worker assigns exactly this map in the room if it has the room, and
  -- nothing changes if it has not.
  pub assign_slots-handle_assign_slots :
      (room : GoString) (m : Dict ℤ GoString) (found : Option (World F)) (a : Api F)
      → All (λ (k, _). Fits k) m
      → NodupKeys m
      → get room a.rooms ≡ found
      → let (response, after) = handle_assign_slots fl room (some (slots_body m)) a in
        (acknowledged (ok response) ≡ none)
        × (after ≡ elim found [ none ↦ a | some s ↦ store room (assign fl m s) a ])
  unfolding handle_assign_slots assign_in acknowledged ℕ_discrete
  assign_slots-handle_assign_slots room m none a fits once there =
      rw (there, handle_assign_slots) (refl, refl)
  assign_slots-handle_assign_slots room m (some s) a fits once there =
      rw (there, handle_assign_slots)
        (
          refl,
          ap (λ d. store room (assign fl d s) a)
              (parse_assignment-slots_body m [] fits once (nil-IsFresh m)),
        )
