-- ===== src/Gateway/Bridge/Laws.antt =====
-- Which call an event opens or closes.
use vks.Common.{ℕ, ◌≡◌, Bool, not, ◌&&◌, [], none, some, arith, if◌then◌else◌, ◌==◌}
use vks.Common.GoString.{GoString, lit, string_eq, is_empty}
use vks.Common.Dict.{Dict, lookup, lookup-insert, lookup-erase}
use vks.Gateway.Bridge.{
  Call, accept, release, header, room_of, caller_of, channel_create, channel_destroy,
  handle_esl_event,
}

-- Whether an event announces a call from outside that names its room.
abbrev pub opens : Dict GoString GoString → Bool
opens ev =
    header (lit "Event-Name") ev == channel_create
    && header (lit "Call-Direction") ev == lit "inbound"
    && not (is_empty (room_of ev))
    && not (is_empty (header (lit "Unique-ID") ev))

-- Whether an event ends a call.
abbrev pub closes : Dict GoString GoString → Bool
closes ev =
    not (header (lit "Event-Name") ev == channel_create)
    && header (lit "Event-Name") ev == channel_destroy

-- An event changes the entry of its own call only: an inbound creation that names a room enters it,
-- with its caller and time; a destruction removes it; nothing else changes the table.
pub handle_esl_event_lem :
    (now : ℕ) (ev : Dict GoString GoString) (calls : Dict GoString Call) (u : GoString)
    → lookup u (handle_esl_event now ev calls) ≡ (
        if header (lit "Unique-ID") ev == u
        then (if opens ev
            then some (record {
              uuid = header (lit "Unique-ID") ev;
              caller = caller_of ev;
              room_id = room_of ev;
              peer_id = [];
              started_at = now;
            })
            else if closes ev
            then none
            else lookup u calls)
        else lookup u calls)
unfolding handle_esl_event accept release
handle_esl_event_lem now ev calls u = ground (
  arith,
  lookup-erase u (header (lit "Unique-ID") ev) calls,
  lookup-insert u (header (lit "Unique-ID") ev)
      (record {
        uuid = header (lit "Unique-ID") ev;
        caller = caller_of ev;
        room_id = room_of ev;
        peer_id = [];
        started_at = now;
      })
      calls,
)
