-- ===== src/Routes/Queries/Lists.antt =====
-- The queries of the handlers that list, up to values that are false.
use lxd_management_api.Base.{
  String, ◌==◌, ◌≡◌, refl, sym, ap, ◌∙◌, Bool, Option, none, some, if◌then◌else◌,
}
use lxd_management_api.Json.{Value, null, num, Dict, empty, entry, get, opt_str}
use lxd_management_api.Client.Params.{given}
use lxd_management_api.Routes.Common.{list_params}
use lxd_management_api.Routes.Instances.{list_instances_params}
use lxd_management_api.Routes.Storage.{list_volumes_params}
use lxd_management_api.Routes.Images.{list_images_params}
use lxd_management_api.Routes.Queries.{
  asked, value_or_null, asked-entry, asked-given, swapped, asked_null,
}

pub list_instances_params-given :
    (type project : Option String) (expand : Bool) (filter : Option String)
    → list_instances_params type project expand filter
      ≡ given "type" type (
          entry "recursion"
            (num (if expand then 1 else 0))
            (entry "filter" (opt_str filter) (entry "project" (opt_str project) empty)))
unfolding list_instances_params given
list_instances_params-given none project expand filter = refl
list_instances_params-given (some type) project expand filter = refl

pub asked-list_params :
    (key : String) (expand : Bool) (project : Option String)
    → asked key (list_params expand project)
      ≡ asked key (list_instances_params none project expand none)
unfolding list_instances_params get
asked-list_params key expand project =
    let n : Value = num (if expand then 1 else 0) in
    let scope : Dict = entry "project" (opt_str project) empty in
    asked-entry key "recursion" n scope
    ∙ ap (λ (v : Value). if "recursion" == key then value_or_null n else v)
        (sym (asked_null key "filter" scope refl))
    ∙ sym (asked-entry key "recursion" n (entry "filter" null scope))

list_volumes_params-given :
    (project type : Option String) (expand : Bool)
    → list_volumes_params project type expand ≡ given "type" type (list_params expand project)
unfolding list_volumes_params given
list_volumes_params-given project none expand = refl
list_volumes_params-given project (some type) expand = refl

list_images_params-given :
    (project : Option String) (expand : Bool) (filter : Option String)
    → list_images_params project expand filter ≡ given "filter" filter (list_params expand project)
unfolding list_images_params given
list_images_params-given project expand none = refl
list_images_params-given project expand (some filter) = refl

-- A text that is added last counts as one that `list_instances` writes down.
pub asked-list_volumes_params :
    (key : String) (project type : Option String) (expand : Bool)
    → asked key (list_volumes_params project type expand)
      ≡ asked key (list_instances_params type project expand none)
unfolding list_instances_params get
asked-list_volumes_params key project type expand =
    let base = list_instances_params none project expand none in
    ap (asked key) (list_volumes_params-given project type expand)
    ∙ asked-given key "type" type (list_params expand project) refl
    ∙ ap (λ (v : Value). if "type" == key then value_or_null (opt_str type) else v)
        (asked-list_params key expand project)
    ∙ sym (asked-given key "type" type base refl)
    ∙ ap (asked key) (sym (list_instances_params-given type project expand none))

pub asked-list_images_params :
    (key : String) (project : Option String) (expand : Bool) (filter : Option String)
    → asked key (list_images_params project expand filter)
      ≡ asked key (list_instances_params none project expand filter)
unfolding list_instances_params get
asked-list_images_params key project expand filter =
    let n : Value = num (if expand then 1 else 0) in
    let scope : Dict = entry "project" (opt_str project) empty in
    ap (asked key) (list_images_params-given project expand filter)
    ∙ asked-given key "filter" filter (list_params expand project) refl
    ∙ ap (λ (v : Value). if "filter" == key then value_or_null (opt_str filter) else v)
        (asked-entry key "recursion" n scope)
    ∙ swapped key "filter" "recursion" (value_or_null (opt_str filter)) (value_or_null n)
        (asked key scope) refl
    ∙ ap (λ (v : Value). if "recursion" == key then value_or_null n else v)
        (sym (asked-entry key "filter" (opt_str filter) scope))
    ∙ sym (asked-entry key "recursion" n (entry "filter" (opt_str filter) scope))
