-- ===== src/Routes/Endpoint/Answers.antt =====
-- Every endpoint that succeeds answers with its shape, whatever LXD replies.
use lxd_management_api.Base.{
  some, ltb, ℕ, String, ◌≡◌, refl, ap, Option, Bool, true, false, ◌&&◌, List, if◌then◌else◌,
}
use lxd_management_api.Base.Text.{nonempty, all_chars}
use lxd_management_api.Json.{Value, str, arr, obj, array, empty, entry, get, list_or_empty}
use lxd_management_api.Error.{unicode_error, Exn, Result, ok}
use lxd_management_api.App.{M, Log, Response, pure, raise}
use lxd_management_api.App.Returns.{
  Returns, Returns-pure, Returns-raise, Returns-bind, Returns-then, Returns-bind_of,
}
use lxd_management_api.Operation.{AsyncOperationRef, dump_ref}
use lxd_management_api.Pagination.{PageParams, paginate, dump_page}
use lxd_management_api.Pagination.Laws.{paginate_run}
use lxd_management_api.Security.{Role}
use lxd_management_api.Users.{User}
use lxd_management_api.Deps.{Auth, get_current_user}
use lxd_management_api.Routes.Common.{
  Api, Stream, streamed, guarded, page_of, accepted, waited, accepted_or_waited,
}
use lxd_management_api.Routes.Endpoint.{Endpoint, Answer, json, stream, answered, run}
use lxd_management_api.Routes.Endpoint.Declared.{
  any, dict_of_any, dict_of_str, streaming, returns, fits, passes_on,
}
use lxd_management_api.Routes.Endpoint.Shapes.{
  page, operation, message, bytes, given, shape_of, IsPage, IsOperation, HasShape,
}
use lxd_management_api.Routes.Endpoint.Calls.{call}
use lxd_management_api.Routes.Instances
use lxd_management_api.Routes.Snapshots
use lxd_management_api.Routes.Backups
use lxd_management_api.Routes.Storage
use lxd_management_api.Routes.Networks
use lxd_management_api.Routes.Projects
use lxd_management_api.Routes.Images
use lxd_management_api.Routes.Operations
use lxd_management_api.Routes.System

dump_page-IsPage :
    (vs : List Value) (params : PageParams) → IsPage params (dump_page (paginate vs params))
unfolding dump_page paginate get
dump_page-IsPage vs params = record {
  whole = vs;
  listed = ap (λ (l : List Value). some (arr (array l))) (paginate_run vs params);
  counted = refl;
  at_limit = refl;
  at_offset = refl;
}

dump_ref-IsOperation : (ref : AsyncOperationRef) → IsOperation (dump_ref ref)
unfolding dump_ref get
dump_ref-IsOperation ref = record {
  id = ref.operation_id;
  named = refl;
  status = ref.status;
  has_status = refl;
}

success-IsOperation :
    (id : String)
    → IsOperation (entry "operation_id" (str id) (entry "status" (str "Success") empty))
unfolding get
success-IsOperation id = record { id = id; named = refl; status = "Success"; has_status = refl }

page_of-HasShape :
    (c : M Value) (params : PageParams)
    → Returns (λ v. HasShape (page params) (json v)) (page_of c params)
unfolding page_of
page_of-HasShape c params =
    Returns-bind _ _ (λ result. Returns-pure _ (dump_page-IsPage (list_or_empty result) params))

a_reference :
    (ref : AsyncOperationRef)
    → Returns (λ v. HasShape operation (json v)) (pure (obj (dump_ref ref)))
a_reference ref = Returns-pure _ (dump_ref-IsOperation ref)

module _ (api : Api) where
  accepted-HasShape : (c : M Value) → Returns (λ v. HasShape operation (json v)) (accepted api c)
  unfolding accepted
  accepted-HasShape c = search (Returns-bind, a_reference)

  waited_or_not :
      (b : Bool) (m n : M Value)
      → Returns (λ v. HasShape operation (json v)) m
      → Returns (λ v. HasShape operation (json v)) n
      → Returns (λ v. HasShape operation (json v)) (if b then m else n)
  waited_or_not true m n k l = k
  waited_or_not false m n k l = l

  waited-HasShape :
      (on_error : Exn → Exn) (project : Option String) (wait : Bool) (ref : AsyncOperationRef)
      → Returns (λ v. HasShape operation (json v)) (waited api on_error project wait ref)
  unfolding waited
  waited-HasShape on_error project wait ref =
      waited_or_not (wait && nonempty ref.operation_id) _ _
        (Returns-then _ _ (Returns-pure _ (success-IsOperation ref.operation_id))) (a_reference ref)

  accepted_or_waited-HasShape :
      (on_error : Exn → Exn) (project : Option String) (wait : Bool) (c : M Value)
      → Returns (λ v. HasShape operation (json v)) (accepted_or_waited api on_error project wait c)
  unfolding accepted_or_waited
  accepted_or_waited-HasShape on_error project wait c = search (Returns-bind, waited-HasShape)

guarded-Returns :
    {A : Type 0} {P : A → Type 0} (role : Role) (caller : Result User) (body : M A)
    → Returns P body
    → Returns P (guarded role caller body)
unfolding guarded
guarded-Returns role caller body k = Returns-then _ _ k

answered-Returns :
    {A : Type 0} {P : Answer → Type 0} (make : A → Answer) (m : M A)
    → Returns (λ a. P (make a)) m
    → Returns P (answered make m)
unfolding answered
answered-Returns make m k = Returns-bind_of _ _ k (λ a p. Returns-pure _ p)

a_value : {m : M Value} → Returns (λ v. HasShape given (json v)) m
a_value = record { at = λ log a h. tt }

encoded-HasShape :
    (s : Stream) (b : Bool)
    → all_chars (λ c. ltb c 256) s.disposition ≡ b
    → Returns (λ t. HasShape bytes (stream t)) (if b then pure s else raise unicode_error)
encoded-HasShape s true h = Returns-pure s h
encoded-HasShape s false h = Returns-raise unicode_error

streamed-HasShape :
    (body : Response) (media_type disposition : String)
    → Returns (λ s. HasShape bytes (stream s)) (streamed body media_type disposition)
unfolding streamed
streamed-HasShape body media_type disposition = encoded-HasShape _ _ refl

a_message :
    (text : String)
    → Returns (λ v. HasShape message (json v)) (pure (obj (entry "message" (str text) empty)))
a_message text = Returns-pure _ (record { text = text; same = refl })

ruleset shaping = (
  Returns-bind, Returns-then, page_of-HasShape, accepted-HasShape, accepted_or_waited-HasShape,
  guarded-Returns, answered-Returns, streamed-HasShape, a_value, a_message,
)

run-HasShape :
    (api : Api) (caller : Result User) (endpoint : Endpoint)
    → Returns (HasShape (shape_of endpoint)) (run api caller endpoint)
unfolding run shape_of Instances.list_instances Instances.create_instance Instances.get_instance
    Instances.replace_instance Instances.patch_instance Instances.delete_instance
    Instances.get_instance_state Instances.set_instance_state Instances.list_instance_logs
    Instances.get_instance_log Instances.exec_instance Snapshots.list_snapshots
    Snapshots.create_snapshot Snapshots.get_snapshot Snapshots.rename_snapshot
    Snapshots.delete_snapshot Snapshots.restore_snapshot Backups.list_backups Backups.create_backup
    Backups.get_backup Backups.delete_backup Backups.export_backup Storage.list_pools
    Storage.create_pool Storage.get_pool Storage.update_pool Storage.patch_pool Storage.delete_pool
    Storage.list_volumes Storage.create_volume Storage.get_volume Storage.update_volume
    Storage.patch_volume Storage.delete_volume Storage.attach_volume Storage.detach_volume
    Networks.list_networks Networks.create_network Networks.get_network Networks.update_network
    Networks.patch_network Networks.delete_network Networks.get_network_state Networks.attach_nic
    Networks.detach_nic Projects.list_projects Projects.create_project Projects.get_project
    Projects.update_project Projects.patch_project Projects.delete_project Images.list_images
    Images.get_image Images.delete_image Images.create_image Images.create_alias Images.delete_alias
    Operations.list_operations Operations.get_operation Operations.cancel_operation
    Operations.wait_operation System.server_info System.host_resources System.pool_resources
run-HasShape api caller (Endpoint.cancel_operation operation_id project) = search shaping depth 9
run-HasShape api caller _ = search shaping depth 9

-- What has the shape of an endpoint has the type that its handler declares, unless it is passed on.
fits-page :
    (params : PageParams) (a : Answer) → HasShape (page params) a → fits dict_of_any a ≡ true
unfolding fits
fits-page params (json (obj d)) h = refl
fits-page params _ h = elim h [ ]

fits-operation : (a : Answer) → HasShape operation a → fits dict_of_any a ≡ true
unfolding fits
fits-operation (json (obj d)) h = refl
fits-operation _ h = elim h [ ]

fits-message : (a : Answer) → HasShape message a → fits dict_of_str a ≡ true
unfolding fits
fits-message (json (obj d)) h = ap (λ e. fits dict_of_str (json (obj e))) h.same
fits-message _ h = elim h [ ]

fits-bytes : (a : Answer) → HasShape bytes a → fits streaming a ≡ true
unfolding fits
fits-bytes (stream s) h = refl
fits-bytes _ h = elim h [ ]

fits-given : (a : Answer) → HasShape given a → fits any a ≡ true
unfolding fits
fits-given a h = refl

ruleset fitting = (fits-page, fits-operation, fits-message, fits-bytes, fits-given)

pub fits-HasShape :
    (endpoint : Endpoint) (a : Answer)
    → passes_on endpoint ≡ false
    → HasShape (shape_of endpoint) a
    → fits (returns endpoint) a ≡ true
unfolding shape_of returns passes_on
fits-HasShape (Endpoint.get_instance name project) a k h = absurd cc
fits-HasShape (Endpoint.get_instance_state name project) a k h = absurd cc
fits-HasShape _ a k h = search fitting

module _ (auth : Auth) (now : ℕ) (db : auth.users.State) (creds : Option String) (api : Api) where
  pub call-HasShape :
      (endpoint : Endpoint) (log : Log) (a : Answer)
      → (call auth now db creds api endpoint log).0 ≡ ok a
      → HasShape (shape_of endpoint) a
  unfolding call
  call-HasShape endpoint log a h =
      (run-HasShape api (get_current_user auth now db creds) endpoint).at log a h

  -- And what it returns has the type that its handler declares, so that the validation of FastAPI lets it
  -- pass, except for the two handlers that declare a dictionary and return what LXD gave.
  pub call-fits :
      (endpoint : Endpoint) (log : Log) (a : Answer)
      → passes_on endpoint ≡ false
      → (call auth now db creds api endpoint log).0 ≡ ok a
      → fits (returns endpoint) a ≡ true
  call-fits endpoint log a k h = fits-HasShape endpoint a k (call-HasShape endpoint log a h)
