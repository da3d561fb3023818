-- ===== src/Gateway/Bridge.antt =====
-- services/sip-gateway/internal/bridge/bridge.go, and handleESLEvent of services/sip-gateway/cmd/bridge/main.go.
pub mod Laws
use vks.Common.{
  ℕ, Bool, true, false, not, ◌&&◌, ◌||◌, List, [], ◌∷◌, Option, none, some, if◌then◌else◌, ◌==◌,
}
use vks.Common.GoString.{GoString, lit, string_eq, is_empty}
use vks.Common.Dict.{Dict, values, lookup, insert, erase}

pub record Call : Type 0 where
  pub uuid : GoString
  pub caller : GoString
  pub room_id : GoString
  pub peer_id : GoString
  pub started_at : ℕ

-- A Bridge is its table of calls.
unfoldable pub accept : ℕ → GoString → GoString → GoString → Dict GoString Call → Dict GoString Call
accept now uuid room caller calls =
    if is_empty uuid || is_empty room
    then calls
    else insert uuid
        (record { uuid = uuid; caller = caller; room_id = room; peer_id = []; started_at = now })
        calls

unfoldable pub release : GoString → Dict GoString Call → Dict GoString Call
release uuid calls = erase uuid calls

unfoldable pub active : Dict GoString Call → List Call
active calls = values calls

-- `ev[k]`
unfoldable pub header : GoString → Dict GoString GoString → GoString
header k ev = elim (lookup k ev) [ none ↦ [] | some v ↦ v ]

unfoldable pub first_non_empty : List GoString → GoString
first_non_empty [] = []
first_non_empty (v ∷ vals) = let rest = first_non_empty vals in if is_empty v then rest else v

-- The room that a CHANNEL_CREATE is for.
unfoldable pub room_of : Dict GoString GoString → GoString
room_of ev = first_non_empty (
    header (lit "variable_sip_h_X-VKS-Room") ev
    ∷ header (lit "variable_sip_h_X-Vks-Room") ev
    ∷ header (lit "variable_sip_to_user") ev
    ∷ header (lit "Caller-Destination-Number") ev
    ∷ [])

unfoldable pub caller_of : Dict GoString GoString → GoString
caller_of ev =
    first_non_empty (
      header (lit "variable_sip_h_X-VKS-Caller") ev
      ∷ header (lit "Caller-Caller-ID-Number") ev
      ∷ [])

abbrev pub channel_create : GoString
channel_create = lit "CHANNEL_CREATE"

abbrev pub channel_destroy : GoString
channel_destroy = lit "CHANNEL_DESTROY"

-- The answers and hangups only write the log.
unfoldable pub handle_esl_event :
    ℕ → Dict GoString GoString → Dict GoString Call → Dict GoString Call
handle_esl_event now ev calls =
    let name = header (lit "Event-Name") ev in
    let uuid = header (lit "Unique-ID") ev in
    if name == channel_create
    then (if header (lit "Call-Direction") ev == lit "inbound" && not (is_empty (room_of ev))
        then accept now uuid (room_of ev) (caller_of ev) calls
        else calls)
    else if name == channel_destroy
    then release uuid calls
    else calls
