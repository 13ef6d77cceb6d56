-- ===== src/Routes/Devices.antt =====
-- Attaching a device to an instance and detaching it (routes/storage.py and routes/networks.py): a
-- read of the instance, then one PATCH with its devices.
pub mod Handlers
use lxd_management_api.Base.{
  String, ◌<>◌, ◌==◌, ◌≡◌, refl, ap, ap₂, ◌∙◌, Option, none, some, ◌∷◌, if◌then◌else◌,
}
use lxd_management_api.Json.{Value, obj, Dict, empty, entry, get, put, pop}
use lxd_management_api.Json.Laws.{get-put, get-pop}
use lxd_management_api.Error.{Result, ok, err}
use lxd_management_api.App.{Request, M, Log, pure, lift, resume, ◌>>=◌, ◌>>◌, to_http}
use lxd_management_api.App.Keeps.{converted, to_http_lem}
use lxd_management_api.Client
use lxd_management_api.Client.{Lxd, prepared, request, with_params, with_body}
use lxd_management_api.Client.Laws.{request_lem}
use lxd_management_api.Operation.{to_async_ref}
use lxd_management_api.Security.{operator}
use lxd_management_api.Users.{User}
use lxd_management_api.Deps.{require_role}
use lxd_management_api.Routes.Common.{Api, guarded, project_params, accepted, devices_of}
use lxd_management_api.Routes.Storage.{volume_key, volume_device, attach_volume, detach_volume}
use lxd_management_api.Routes.Networks.{nic_key, nic_device, attach_nic, detach_nic}

resume_log :
    {A B : Type 0} (k : A → M B) (p : Result A × Log)
    → ((a : A) (log : Log) → (k a log).1 ≡ log)
    → (resume k p).1 ≡ p.1
unfolding resume
resume_log k (ok a, log) h = h a log
resume_log k (err e, log) h = refl

module _ (api : Api) where
  open api use {lxd}

  accepted_log : (call : M Value) (log : Log) → (accepted api call log).1 ≡ (call log).1
  unfolding accepted ◌>>=◌ lift pure
  accepted_log call log =
      resume_log _ (to_http call log)
        (λ result l. resume_log _ (to_async_ref api.repr result, l) (λ ref m. refl))
      ∙ ap (λ (p : Result Value × Log). p.1) (to_http_lem call log)

  -- The requests that read an instance and change its devices.
  abbrev get_request : String → Option String → Request
  get_request instance_name project =
      prepared lxd "GET" ("instances/" <> instance_name) (with_params (project_params project))

  abbrev patch_request : String → Option String → Dict → Request
  patch_request instance_name project devices =
      prepared lxd "PATCH" ("instances/" <> instance_name)
        (with_body (obj (entry "devices" (obj devices) empty)) (project_params project))

  -- What a handler leaves: the read of the instance and then one PATCH of it, whose devices are as
  -- expected under every key.
  abbrev pub Patches : String → Option String → Log → (String → Option Value) → Log → Type 0
  Patches instance_name project log expected sent_log =
      (sent : Dict) × (sent_log
        ≡ patch_request instance_name project sent ∷ (get_request instance_name project ∷ log))
      × ((key : String) → get key sent ≡ expected key)

  -- What follows the read of the devices, and what follows the read of the instance.
  module _ (change : Dict → Dict) (instance_name : String) (project : Option String) where
    abbrev sent : Dict → M Value
    sent devices = accepted api (
        Client.patch lxd ("instances/" <> instance_name)
          (with_body (obj (entry "devices" (obj (change devices)) empty)) (project_params project)))

    abbrev after : Value → M Value
    after inst = lift (devices_of api inst) >>= sent

  -- The body of the four handlers, for a change of the devices.
  abbrev changed : (Dict → Dict) → String → Option String → M Value
  changed change instance_name project =
      to_http
        (Client.get lxd ("instances/" <> instance_name) (with_params (project_params project)))
      >>= after change instance_name project

  guarded_allowed :
      (caller : Result User) (user : User) (body : M Value) (log : Log)
      → require_role operator caller ≡ ok user
      → guarded operator caller body log ≡ body log
  unfolding guarded ◌>>◌ ◌>>=◌ lift resume
  guarded_allowed caller user body log h = rw (h, resume)

  patch_log :
      (path : String) (kwargs : Client.Kwargs) (log : Log)
      → (Client.patch lxd path kwargs log).1 ≡ prepared lxd "PATCH" path kwargs ∷ log
  unfolding Client.patch
  patch_log path kwargs log =
      ap (λ (p : Result Value × Log). p.1) (request_lem lxd "PATCH" path kwargs log)

  module _ (instance_name : String) (project : Option String) (log : Log) (inst : Value)
      (read : (Client.get lxd
          ("instances/" <> instance_name)
          (with_params (project_params project))
          log).0
        ≡ ok inst)
      (devices : Dict) (has_devices : devices_of api inst ≡ ok devices) where
    got :
        to_http
          (Client.get lxd ("instances/" <> instance_name) (with_params (project_params project)))
          log
        ≡ (ok inst, get_request instance_name project ∷ log)
    unfolding Client.get
    got =
        to_http_lem _ log
        ∙ ap₂ (λ (r : Result Value) (l : Log). (converted r, l)) read
            (ap (λ (p : Result Value × Log). p.1)
              (request_lem lxd "GET" ("instances/" <> instance_name)
                (with_params (project_params project)) log))

    changed_log :
        (change : Dict → Dict)
        → (changed change instance_name project log).1
          ≡ patch_request instance_name project (change devices)
            ∷ (get_request instance_name project ∷ log)
    unfolding ◌>>=◌ lift resume
    changed_log change =
        ap (λ (p : Result Value × Log). (resume (after change instance_name project) p).1) got
        ∙ ap
            (λ (r : Result Dict).
              (resume (sent change instance_name project)
                (r, get_request instance_name project ∷ log)).1)
            has_devices
        ∙ accepted_log _ (get_request instance_name project ∷ log)
        ∙ patch_log _ _ (get_request instance_name project ∷ log)

    module _ (caller : Result User) (user : User)
        (allowed : require_role operator caller ≡ ok user) where
      pub allowed_log :
          (change : Dict → Dict)
          → (guarded operator caller (changed change instance_name project) log).1
            ≡ patch_request instance_name project (change devices)
              ∷ (get_request instance_name project ∷ log)
      allowed_log change =
          ap (λ (p : Result Value × Log). p.1)
            (guarded_allowed caller user (changed change instance_name project) log allowed)
          ∙ changed_log change
