-- ===== src/Examples/Calls.antt =====
-- Escapes of the event socket.
use vks.Common.{ℕ, ℕ_eq, ◌≡◌, refl, Bool, [], ◌∷◌, arith, All, ◌==◌, if◌then◌else◌, none, some}
use vks.Common.GoString.{GoString, lit, string_eq}
use vks.Common.Dict.{Dict, lookup}
use native.Mathlib.Decide.{ℕ_discrete}
use vks.Gateway.Esl.{url_decode}
use vks.Gateway.Esl.Escapes.{url_encode, url_decode-url_encode}
use vks.Gateway.Bridge.{handle_esl_event, header, room_of, caller_of}
use vks.Gateway.Bridge.Laws.{opens, closes, handle_esl_event_lem}
use vks.Worker.Room.Names.{escape}
use vks.Worker.Room.Names.Escape.{escaped, NoBracket, escape_lem}

-- Only the letter `a` is spared.
abbrev spare_a : ℕ → Bool
spare_a c = c == b'a'

decode_example : url_decode (url_encode spare_a (lit "a%b")) ≡ lit "a%b"
unfolding ℕ_discrete
decode_example =
    url_decode-url_encode spare_a (lit "a%b") refl (omega arith, (omega arith, (omega arith, tt)))

escape_example :
    (escape (lit "<a&b>") ≡ escaped (lit "<a&b>")) × All NoBracket (escape (lit "<a&b>"))
escape_example = escape_lem (lit "<a&b>")

abbrev ringing : Dict GoString GoString
ringing =
    (lit "Event-Name", lit "CHANNEL_CREATE")
    ∷ (lit "Unique-ID", lit "u1")
    ∷ (lit "Call-Direction", lit "inbound")
    ∷ (lit "variable_sip_to_user", lit "room1")
    ∷ []

event_example : lookup (lit "u1") (handle_esl_event 5 ringing []) ≡ (
    if header (lit "Unique-ID") ringing == lit "u1"
    then (if opens ringing
        then some (record {
          uuid = header (lit "Unique-ID") ringing;
          caller = caller_of ringing;
          room_id = room_of ringing;
          peer_id = [];
          started_at = 5;
        })
        else if closes ringing
        then none
        else lookup (lit "u1") [])
    else lookup (lit "u1") [])
event_example = handle_esl_event_lem 5 ringing [] (lit "u1")
