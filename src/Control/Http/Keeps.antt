-- ===== src/Control/Http/Keeps.antt =====
-- services/control-plane/internal/adapters/httpapi: what a handler keeps if its use case keeps it.
use vks.Common.{ok, err}
use vks.Common.GoString.{GoString, lit}
use vks.Control.Store.{Store, Env}
use vks.Control.Http.{Response, bad, with_id}

module _ {F : Type 0} (e : Env F) where
  -- What holds before a handler, and behind its use case, holds behind the handler.
  pub with_id-keeps :
      (P : Store F → Type 0) (text : GoString) (k : GoString → Store F → Response F × Store F)
      (s : Store F)
      → P s
      → ((id : GoString) → P (k id s).1)
      → P (with_id e text k s).1
  unfolding with_id
  with_id-keeps P text k s before behind =
      elim (e.parse_uuid text)
        as (λ r.
          let t : Response F × Store F = elim r [
            | err x ↦ (bad (lit "bad id"), s)
            | ok id ↦ k id s
          ] in
          P t.1) [ err x ↦ before | ok id ↦ behind id ]
