-- ===== src/Routes/Scope.antt =====
-- The requests that change something other than instances and operations, and what the pieces of the
-- handlers add to them.
use lxd_management_api.Base.{
  ℕ, ◌≡◌, refl, sym, ap, ◌∙◌, String, ◌<>◌, ◌==◌, true, false, Bool, Option, arith, Bool-cases, inl,
  inr, if◌then◌else◌,
}
use lxd_management_api.Json.{Value}
use lxd_management_api.Error.{Exn, Result}
use lxd_management_api.App.{M, Log}
use lxd_management_api.App.Keeps.{Keeps, keeps_rules}
use lxd_management_api.Client
use lxd_management_api.Client.{Lxd, Kwargs, exchange, request, request_raw, prepared}
use lxd_management_api.Operation.{AsyncOperationRef, wait_for_operation}
use lxd_management_api.Pagination.{PageParams}
use lxd_management_api.Security.{Role}
use lxd_management_api.Users.{User}
use lxd_management_api.Routes.Common.{Api, guarded, page_of}
use Prim.Native.Char.{Char, code}
use Prim.Native.String.{◌∷◌, []}
use text.Mathlib.Text.{starts_with}
use text.Mathlib.TextEquality.{starts_with_iff}
use text.Mathlib.TextPositions.{starts_with-append}
use text.Mathlib.TextLemmas.{cons-append, append_assoc, head-eq_of_cons-eq}
use lxd_management_api.Base.{◌||◌, List, ◌≢◌, ◌⊎◌}
use lxd_management_api.App.{Request}
use lxd_management_api.Client.{url_of}
use lxd_management_api.Routes.Common.{accepted, waited, accepted_or_waited}

-- Whether a request only reads, or goes to an instance or to an operation.
unfoldable pub in_scope : Request → Bool
in_scope r =
    r.method == "GET" || starts_with r.url "/1.0/instances/" || starts_with r.url "/1.0/operations/"

-- The requests of a log that are neither.
unfoldable pub outside : Log → Log
unfolding in_scope
outside List.[] = List.[]
outside (List.◌∷◌ r log) = let rest = outside log in if in_scope r then rest else List.◌∷◌ r rest

not_absolute : (c : Char) (s : String) → code c ≢ b'/' → starts_with (c ∷ s) "/" ≡ false
not_absolute c s h = elim (Bool-cases (starts_with (c ∷ s) "/")) [
  | inr e ↦ e
  | inl e ↦
      let (rest, same) = (starts_with_iff (c ∷ s) "/").0 e in
      absurd (h (sym (ap code (head-eq_of_cons-eq (sym (cons-append "/" [] rest) ∙ same)))))
]

url_of-relative : (c : Char) (s : String) → code c ≢ b'/' → url_of (c ∷ s) ≡ "/1.0/" <> (c ∷ s)
unfolding url_of
url_of-relative c s h = rw (not_absolute c s h) (sym (append_assoc "/1.0" "/" (c ∷ s)))

pub url_of-instances : (x : String) → url_of ("instances/" <> x) ≡ "/1.0/instances/" <> x
url_of-instances x = rw (cons-append "i" "nstances/" x) (
    url_of-relative "i" ("nstances/" <> x) (omega arith)
    ∙ ap (λ s. "/1.0/" <> s) (sym (cons-append "i" "nstances/" x))
    ∙ sym (append_assoc "/1.0/" "instances/" x))

pub url_of-operations : (x : String) → url_of ("operations/" <> x) ≡ "/1.0/operations/" <> x
url_of-operations x = rw (cons-append "o" "perations/" x) (
    url_of-relative "o" ("perations/" <> x) (omega arith)
    ∙ ap (λ s. "/1.0/" <> s) (sym (cons-append "o" "perations/" x))
    ∙ sym (append_assoc "/1.0/" "operations/" x))

in_scope_of :
    (r : Request)
    → (starts_with r.url "/1.0/instances/" ≡ true) ⊎ (starts_with r.url "/1.0/operations/" ≡ true)
    → in_scope r ≡ true
unfolding in_scope
in_scope_of r h = ground arith

module _ (old : Log) where
  -- The requests outside the scope are those of `old`.
  abbrev pub Scoped : Log → Type 0
  Scoped log = outside log ≡ old

  exchange-Scoped_of :
      (lxd : Lxd) (method path : String) (kwargs : Kwargs)
      → in_scope (prepared lxd method path kwargs) ≡ true
      → Keeps Scoped (exchange lxd method path kwargs)
  unfolding exchange outside
  exchange-Scoped_of lxd method path kwargs s = record { at = λ log h. rw s h }

  exchange-Scoped :
      (lxd : Lxd) (path : String) (kwargs : Kwargs) → Keeps Scoped (exchange lxd "GET" path kwargs)
  unfolding prepared
  exchange-Scoped lxd path kwargs =
      exchange-Scoped_of lxd "GET" path kwargs (unfold in_scope in refl)

  exchange-instances :
      (lxd : Lxd) (method x : String) (kwargs : Kwargs)
      → Keeps Scoped (exchange lxd method ("instances/" <> x) kwargs)
  unfolding prepared
  exchange-instances lxd method x kwargs =
      exchange-Scoped_of lxd method ("instances/" <> x) kwargs (
        in_scope_of (prepared lxd method ("instances/" <> x) kwargs) (
          inl (
            ap (λ u. starts_with u "/1.0/instances/") (url_of-instances x)
            ∙ starts_with-append "/1.0/instances/" x)))

  exchange-operations :
      (lxd : Lxd) (method x : String) (kwargs : Kwargs)
      → Keeps Scoped (exchange lxd method ("operations/" <> x) kwargs)
  unfolding prepared
  exchange-operations lxd method x kwargs =
      exchange-Scoped_of lxd method ("operations/" <> x) kwargs (
        in_scope_of (prepared lxd method ("operations/" <> x) kwargs) (
          inr (
            ap (λ u. starts_with u "/1.0/operations/") (url_of-operations x)
            ∙ starts_with-append "/1.0/operations/" x)))

  pub get-Scoped :
      (lxd : Lxd) (path : String) (kwargs : Kwargs) → Keeps Scoped (Client.get lxd path kwargs)
  unfolding Client.get
  get-Scoped lxd path kwargs = search (keeps_rules, exchange-Scoped)

  pub request_raw-Scoped :
      (lxd : Lxd) (path : String) (kwargs : Kwargs)
      → Keeps Scoped (request_raw lxd "GET" path kwargs)
  unfolding request_raw
  request_raw-Scoped lxd path kwargs = search exchange-Scoped

  pub wait_for_operation-Scoped :
      (lxd : Lxd) (repr : Value → String) (id : String) (timeout : ℕ) (project : Option String)
      → Keeps Scoped (wait_for_operation lxd repr id timeout project)
  unfolding wait_for_operation
  wait_for_operation-Scoped lxd repr id timeout project = search (keeps_rules, get-Scoped)

  pub page_of-Scoped :
      (call : M Value) (page : PageParams) → Keeps Scoped call → Keeps Scoped (page_of call page)
  unfolding page_of
  page_of-Scoped call page k = search keeps_rules

  pub guarded-Scoped :
      {A : Type 0} (role : Role) (caller : Result User) (body : M A)
      → Keeps Scoped body
      → Keeps Scoped (guarded role caller body)
  unfolding guarded
  guarded-Scoped role caller body k = search keeps_rules

  pub post-instances :
      (lxd : Lxd) (x : String) (kwargs : Kwargs)
      → Keeps Scoped (Client.post lxd ("instances/" <> x) kwargs)
  unfolding Client.post
  post-instances lxd x kwargs = search (keeps_rules, exchange-instances)

  pub put-instances :
      (lxd : Lxd) (x : String) (kwargs : Kwargs)
      → Keeps Scoped (Client.put lxd ("instances/" <> x) kwargs)
  unfolding Client.put
  put-instances lxd x kwargs = search (keeps_rules, exchange-instances)

  pub patch-instances :
      (lxd : Lxd) (x : String) (kwargs : Kwargs)
      → Keeps Scoped (Client.patch lxd ("instances/" <> x) kwargs)
  unfolding Client.patch
  patch-instances lxd x kwargs = search (keeps_rules, exchange-instances)

  pub delete-instances :
      (lxd : Lxd) (x : String) (kwargs : Kwargs)
      → Keeps Scoped (Client.delete lxd ("instances/" <> x) kwargs)
  unfolding Client.delete
  delete-instances lxd x kwargs = search (keeps_rules, exchange-instances)

  pub delete-operations :
      (lxd : Lxd) (x : String) (kwargs : Kwargs)
      → Keeps Scoped (Client.delete lxd ("operations/" <> x) kwargs)
  unfolding Client.delete
  delete-operations lxd x kwargs = search (keeps_rules, exchange-operations)

  module _ (api : Api) where
    pub accepted-Scoped : (call : M Value) → Keeps Scoped call → Keeps Scoped (accepted api call)
    unfolding accepted
    accepted-Scoped call k = search keeps_rules

    waited-Scoped :
        (on_error : Exn → Exn) (project : Option String) (wait : Bool) (ref : AsyncOperationRef)
        → Keeps Scoped (waited api on_error project wait ref)
    unfolding waited
    waited-Scoped on_error project wait ref =
        search (keeps_rules, wait_for_operation-Scoped) depth 7

    pub accepted_or_waited-Scoped :
        (on_error : Exn → Exn) (project : Option String) (wait : Bool) (call : M Value)
        → Keeps Scoped call
        → Keeps Scoped (accepted_or_waited api on_error project wait call)
    unfolding accepted_or_waited
    accepted_or_waited-Scoped on_error project wait call k =
        search (keeps_rules, waited-Scoped) depth 7
