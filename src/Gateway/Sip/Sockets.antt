-- ===== src/Gateway/Sip/Sockets.antt =====
-- The open sockets of the SIP server are those of its calls, each held by one call.
use vks.Common.{
  ℕ, ◌+◌, ◌-◌, ◌≤◌, ◌≡◌, refl, List, [], ◌∷◌, Option, none, some, arith, if◌then◌else◌, ◌==◌, ltb,
  count, Option-cases, inl, inr,
}
use vks.Common.Tests.{ℕ_eq}
use vks.Common.GoString.{GoString, string_eq}
use vks.Common.Int.{ℤ_eq}
use vks.Common.Dict.{Dict, lookup, insert, erase, NodupKeys, insert-NodupKeys, erase-NodupKeys}
use vks.Gateway.Sip.{
  close_sockets, Leg, Call, Server, Answers, Party, Local, listen, remove_socket, close_socket,
  close_leg, end_call, cleanup, enter_call, give_up,
}

-- 1 for the same socket.
abbrev pub same : ℕ → ℕ → ℕ
same x y = if y == x then 1 else 0

abbrev pub on_leg : ℕ → Option Leg → ℕ
on_leg x none = 0
on_leg x (some l) = same x l.conn

-- How often a call has a socket.
abbrev pub held : ℕ → Call → ℕ
held x c = same x c.fs.conn + same x c.mw.conn + on_leg x c.fs_video + on_leg x c.mw_video

abbrev pub total : ℕ → Dict GoString Call → ℕ
total x [] = 0
total x ((_, c) ∷ d) = held x c + total x d

-- The open sockets are those of the calls and some more, each once, and numbers are given out upwards.
pub record Holds (more : ℕ → ℕ) (s : Server) : Type 0 where
  pub each : (x : ℕ) → count x s.opened ≡ total x s.calls + more x
  pub once : (x : ℕ) → count x s.opened ≤ (if ltb x s.next then 1 else 0)
  pub keyed : NodupKeys s.calls

-- No socket is open but those of calls, and none belongs to two of them.
abbrev pub IsTight : Server → Type 0
IsTight s = Holds (λ _. 0) s

count-remove_socket : (x y : ℕ) (l : List ℕ) → count x (remove_socket y l) ≡ count x l - same x y
unfolding remove_socket
count-remove_socket x y [] = ground arith
count-remove_socket x y (z ∷ l) = ground (arith, count-remove_socket x y l)

total-insert :
    (x : ℕ) (id : GoString) (c : Call) (d : Dict GoString Call)
    → lookup id d ≡ none
    → total x (insert id c d) ≡ total x d + held x c
unfolding insert lookup
total-insert x id c [] h = ground arith
total-insert x id c ((j, w) ∷ d) h = ground (arith, total-insert x id c d)

total-erase_absent :
    (x : ℕ) (id : GoString) (d : Dict GoString Call)
    → lookup id d ≡ none
    → total x (erase id d) ≡ total x d
unfolding erase lookup
total-erase_absent x id [] h = refl
total-erase_absent x id ((j, w) ∷ d) h = ground (arith, total-erase_absent x id d)

total-erase :
    (x : ℕ) (id : GoString) (c : Call) (d : Dict GoString Call)
    → NodupKeys d
    → lookup id d ≡ some c
    → total x d ≡ total x (erase id d) + held x c
unfolding erase lookup
total-erase x id c [] k h = ground arith
total-erase x id c ((j, w) ∷ d) k h =
    ground (arith, total-erase x id c d k.1, total-erase_absent x id d)

pub listen-Holds :
    (more : ℕ → ℕ) (s : Server) → Holds more s → Holds (λ x. more x + same x s.next) (listen s)
listen-Holds more s h = record {
  each = λ x. ground (arith, h.each x);
  once = λ x. ground (arith, h.once x);
  keyed = h.keyed;
}

pub close-Holds :
    (more : ℕ → ℕ) (y : ℕ) (s : Server)
    → Holds (λ x. more x + same x y) s
    → Holds more (close_socket y s)
close-Holds more y s h = record {
  each = λ x. ground (arith, h.each x, count-remove_socket x y s.opened);
  once = λ x. ground (arith, h.once x, count-remove_socket x y s.opened);
  keyed = h.keyed;
}

close_leg-Holds :
    (more : ℕ → ℕ) (l : Option Leg) (s : Server)
    → Holds (λ x. more x + on_leg x l) s
    → Holds more (close_leg l s)
close_leg-Holds more none s h = record {
  each = λ x. ground (arith, h.each x);
  once = h.once;
  keyed = h.keyed;
}
close_leg-Holds more (some l) s h = close-Holds more l.conn s h

-- The sockets may be counted in any order.
pub Holds-same :
    (more less : ℕ → ℕ) (s : Server) → ((x : ℕ) → more x ≡ less x) → Holds more s → Holds less s
Holds-same more less s e h = record {
  each = λ x. ground (arith, h.each x, e x);
  once = h.once;
  keyed = h.keyed;
}

pub Holds-fields :
    (more : ℕ → ℕ) (s t : Server)
    → t.opened ≡ s.opened
    → t.next ≡ s.next
    → t.calls ≡ s.calls
    → Holds more s
    → Holds more t
Holds-fields more s t e f g h = record {
  each = λ x. rw (e, g) (h.each x);
  once = λ x. rw (e, f) (h.once x);
  keyed = rw g h.keyed;
}

close_sockets-Holds :
    (c : Call) (s : Server) → Holds (λ x. held x c) s → IsTight (close_sockets c s)
close_sockets-Holds c s h = close_leg-Holds _ c.mw_video _ (
    close_leg-Holds _ c.fs_video _ (
      close-Holds _ c.mw.conn _ (
        close-Holds _ c.fs.conn s (
          Holds-same (λ x. held x c)
            (λ x.
              0 + on_leg x c.mw_video + on_leg x c.fs_video + same x c.mw.conn + same x c.fs.conn)
            s (λ x. omega arith) h))))

-- A call that ends takes its sockets along.
end_call-Holds :
    (id : GoString) (c : Call) (s : Server)
    → Holds (λ x. held x c) s
    → IsTight (end_call id (some c) s)
unfolding end_call
end_call-Holds id c s h =
    Holds-fields _ (close_sockets c s) (end_call id (some c) s) (ground arith) (ground arith)
      (ground arith) (close_sockets-Holds c s h)

pub cleanup-IsTight : (id : GoString) (s : Server) → IsTight s → IsTight (cleanup id s)
unfolding cleanup end_call
cleanup-IsTight id s h = elim (Option-cases (lookup id s.calls)) [
  | inl gone ↦
      rw (gone, cleanup)
        (record {
          each = λ x. ground (arith, h.each x, total-erase_absent x id s.calls gone);
          once = h.once;
          keyed = erase-NodupKeys id s.calls h.keyed;
        })
  | inr (c, there) ↦
      rw (there, cleanup)
        (end_call-Holds id c (record s { calls = erase id s.calls })
          (record {
            each = λ x. ground (arith, h.each x, total-erase x id c s.calls h.keyed there);
            once = h.once;
            keyed = erase-NodupKeys id s.calls h.keyed;
          }))
]

-- The sockets of an INVITE in progress towards the caller.
abbrev pub at_hand : Local → ℕ → ℕ
at_hand l x = 0 + same x l.audio.conn + on_leg x l.video

pub give_up-IsTight :
    (status : ℕ) (l : Local) (s : Server) → Holds (at_hand l) s → IsTight (give_up status l s).1
give_up-IsTight status l s h = close_leg-Holds _ l.video _ (
    close-Holds _ l.audio.conn s (
      Holds-same (at_hand l) (λ x. 0 + on_leg x l.video + same x l.audio.conn) s (λ x. omega arith)
        h))

pub enter_call-IsTight :
    (a : Answers) (w : Party) (l : Local) (mw : Leg) (v : Option Leg) (s : Server)
    → lookup w.call_id s.calls ≡ none
    → Holds (λ x. at_hand l x + same x mw.conn + on_leg x v) s
    → IsTight (enter_call a w l mw v s).1
unfolding enter_call
enter_call-IsTight a w l mw v s new h = record {
  each = λ x. ground (
    arith,
    h.each x,
    total-insert x w.call_id
        (record {
          call_id = w.call_id;
          room = w.room;
          caller = w.caller;
          peer_id = w.call_id;
          fs = l.audio;
          mw = mw;
          fs_video = l.video;
          mw_video = v;
        })
        s.calls new,
  );
  once = h.once;
  keyed = insert-NodupKeys w.call_id _ s.calls h.keyed;
}
