-- ===== src/Control/Http/LayoutHandlers.antt =====
-- services/control-plane/internal/adapters/httpapi/handlers_layouts.go, but for List
use vks.Common.{Option}
use vks.Common.GoString.{GoString, string_eq}
use vks.Common.Int.{ℤ_eq}
use vks.Common.Dict.{Dict}
use vks.Control.Store.{Value, Store, Env}
use vks.Control.Templates.{
  CreateTemplateInput, create_template, update_template, delete_template, get_template,
}
use vks.Control.Http.{empty, template, Response, reply, replied, with_id, with_json}

module _ {F : Type 0} where
  unfoldable pub template_get : Env F → GoString → Store F → Response F × Store F
  unfolding with_id reply get_template
  template_get e text = with_id e text (λ id s. (reply 200 template (get_template e id s), s))

  unfoldable pub template_create :
      Env F → GoString → Option CreateTemplateInput → Store F → Response F × Store F
  unfolding with_json replied create_template
  template_create e actor in_ =
      with_json in_ (λ input s. replied 201 template (create_template e actor input s))

  unfoldable pub template_patch :
      Env F → GoString → GoString → Option (Dict GoString Value) → Store F → Response F × Store F
  unfolding with_id with_json replied update_template
  template_patch e actor text in_ =
      with_id e text
        (λ id. with_json in_ (λ set s. replied 200 template (update_template e actor id set s)))

  unfoldable pub template_delete : Env F → GoString → GoString → Store F → Response F × Store F
  unfolding with_id replied delete_template
  template_delete e actor text =
      with_id e text (λ id s. replied 204 (λ _. empty) (delete_template e actor id s))
