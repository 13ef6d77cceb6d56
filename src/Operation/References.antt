-- ===== src/Operation/References.antt =====
-- References to operations.
use Prim.Native.Char.{Char, code}
use Prim.Native.String.{String, [], ◌∷◌}
use text.Mathlib.TextLemmas.{nil-append, cons-append, append-nil, append_assoc}
use lxd_management_api.Base.{
  ℕ, ◌<>◌, ◌≡◌, refl, sym, ap, ◌∙◌, inl, inr, Bool, true, false, ◌||◌, none, some, Bool-cases,
  arith, num_eq, if◌then◌else◌,
}
use lxd_management_api.Base.Text.{
  nonempty, rstrip, cons_unless, last_part, last_part_from, is_slash, contains,
}
use lxd_management_api.Json.{
  Value, null, str, obj, Dict, empty, entry, get, get_or, truthy, opt_str,
}
use lxd_management_api.Json.Laws.{get_or-some, get_or-none}
use lxd_management_api.Error.{Exn, validation_error, ok, err}
use lxd_management_api.Client.{LxdResponse, async, of_envelope}
use lxd_management_api.Operation.{
  operation_id_from_url, AsyncOperationRef, to_async_ref, async_ref, operation_url, as_str, to_text,
}

NoSlash : String → Type 0
NoSlash s = contains b'/' s ≡ false

module _ (sep : ℕ) where
  last_part_from_plain :
      (cur s : String) → contains sep s ≡ false → last_part_from sep cur s ≡ cur <> s
  unfolding last_part_from contains
  last_part_from_plain cur [] h = sym (append-nil cur)
  last_part_from_plain cur (c ∷ s) h = elim (Bool-cases (num_eq (code c) sep)) [
    | inl e ↦ cc (rw e at h)
    | inr e ↦ rw e (
        last_part_from_plain (cur <> (c ∷ [])) s (rw e at h)
        ∙ append_assoc cur (c ∷ []) s
        ∙ ap (λ t. cur <> t) (cons-append c [] s ∙ ap (λ t. c ∷ t) (nil-append s)))
  ]

  last_part_from-append :
      (cur a s : String) (c : Char)
      → code c ≡ sep
      → contains sep s ≡ false
      → last_part_from sep cur (a <> (c ∷ s)) ≡ s
  unfolding last_part_from
  last_part_from-append cur [] s c e h = rw nil-append (
      ap (λ b. last_part_from sep (if b then [] else cur <> (c ∷ [])) s) same
      ∙ last_part_from_plain [] s h
      ∙ nil-append s)
    where
      same : num_eq (code c) sep ≡ true
      same = ground arith
  last_part_from-append cur (d ∷ a) s c e h =
      rw cons-append
        (last_part_from-append (if num_eq (code d) sep then [] else cur <> (d ∷ [])) a s c e h)

or-eq-false_right : (a : Bool) {b : Bool} → (a || b) ≡ false → b ≡ false
or-eq-false_right true h = cc
or-eq-false_right false h = h

rstrip_plain : (s : String) → contains b'/' s ≡ false → rstrip is_slash s ≡ s
unfolding rstrip contains
rstrip_plain [] h = refl
rstrip_plain (c ∷ []) h = ground arith
rstrip_plain (c ∷ (d ∷ s)) h =
    ap (cons_unless is_slash c) (rstrip_plain (d ∷ s) (or-eq-false_right (num_eq (code c) b'/') h))

rstrip-append :
    (a s : String) (d : Char)
    → rstrip is_slash (d ∷ s) ≡ d ∷ s
    → rstrip is_slash (a <> (d ∷ s)) ≡ a <> (d ∷ s)
unfolding rstrip
rstrip-append [] s d h = rw nil-append h
rstrip-append (c ∷ []) s d h = rw (cons-append, nil-append) (ap (cons_unless is_slash c) h)
rstrip-append (c ∷ (e ∷ a)) s d h =
    let inner = cons-append e a (d ∷ s) in
    rw (cons-append c (e ∷ a) (d ∷ s)) (
      ap (cons_unless is_slash c) (rstrip-append (e ∷ a) s d h)
      ∙ ap (cons_unless is_slash c) inner
      ∙ ap (λ t. c ∷ t) (sym inner))

split_url : (s : String) → "1.0/operations/" <> s ≡ "1.0/operations" <> ("/" ∷ s)
split_url s =
    append_assoc "1.0/operations" "/" s
    ∙ ap (λ u. "1.0/operations" <> u) (cons-append "/" [] s ∙ ap (λ u. "/" ∷ u) (nil-append s))

-- The path of an operation of LXD gives its id back.
id_of_url :
    (id : String)
    → nonempty id ≡ true
    → NoSlash id
    → operation_id_from_url (some ("/1.0/operations/" <> id)) ≡ some id
unfolding operation_id_from_url NoSlash last_part
id_of_url [] h k = cc
id_of_url (c ∷ id) h k = rw (rstrip-append "/1.0/operations/" id c (rstrip_plain (c ∷ id) k)) (
    rw (cons-append "/" "1.0/operations/" (c ∷ id)) (
      ap (λ u. some (last_part_from b'/' [] u)) (split_url (c ∷ id))
      ∙ ap some (last_part_from-append b'/' [] "1.0/operations" (c ∷ id) "/" refl k)))

to_async_ref-obj :
    (repr : Value → String) (d : Dict)
    → to_async_ref repr (obj d)
      ≡ async_ref repr (get_or "id" (str "") d) (operation_url repr d (get_or "id" (str "") d))
unfolding to_async_ref
to_async_ref-obj repr d = refl

operation_url_absent :
    (repr : Value → String) (d : Dict) (id : Value)
    → get "operation" d ≡ none
    → operation_url repr d id ≡ str ("/1.0/operations/" <> to_text repr id)
unfolding operation_url
operation_url_absent repr d id h =
    ap (λ g. if truthy g then g else str ("/1.0/operations/" <> to_text repr id))
      (get_or-none "operation" null d h)

-- If LXD returns an operation as a dictionary whose `id` is a text that is not empty and has no slash,
-- and which has no key `operation`, `to_async_ref` makes a reference with that id, whose URL gives the
-- id back, and whose poll and wait URLs are those of that operation.
pub to_async_ref_roundtrip :
    (repr : Value → String) (d : Dict) (id : String)
    → get "id" d ≡ some (str id)
    → get "operation" d ≡ none
    → nonempty id ≡ true
    → contains b'/' id ≡ false
    → (ref : AsyncOperationRef) × (to_async_ref repr (obj d) ≡ ok ref)
      × (ref.operation_id ≡ id)
      × (operation_id_from_url (some ref.operation_url) ≡ some id)
      × (ref.poll_url ≡ "/api/v1/operations/" <> id)
      × (ref.wait_url ≡ ref.poll_url <> "/wait")
unfolding NoSlash
to_async_ref_roundtrip repr d id has_id no_url filled plain = (
  record {
    operation_id = id;
    operation_url = "/1.0/operations/" <> id;
    status = "async";
    poll_url = "/api/v1/operations/" <> id;
    wait_url = "/api/v1/operations/" <> id <> "/wait";
  },
  rw
      (
        to_async_ref-obj repr d,
        get_or-some "id" (str "") d has_id,
        operation_url_absent repr d (str id) no_url,
      )
      (unfold async_ref as_str in refl),
  refl,
  id_of_url id filled plain,
  refl,
  sym (append_assoc "/api/v1/operations/" id "/wait"),
)

-- If LXD answers with an async envelope that has a non-empty operation URL and no metadata, the
-- handler's reference has that URL, but an empty operation id and the poll URL of no operation.
pub async_without_metadata :
    (repr : Value → String) (code : ℕ) (envelope : LxdResponse) (url : String)
    → envelope.type ≡ async
    → envelope.metadata ≡ null
    → envelope.operation ≡ some url
    → nonempty url ≡ true
    → (v : Value) × (of_envelope code envelope ≡ ok v)
      × (ref : AsyncOperationRef) × (to_async_ref repr v ≡ ok ref)
      × (ref.operation_url ≡ url)
      × (ref.operation_id ≡ "")
      × (ref.poll_url ≡ "/api/v1/operations/")
unfolding to_async_ref of_envelope
async_without_metadata repr code envelope url t m o h = (
  obj (entry "operation" (str url) (entry "status" (opt_str envelope.status) empty)),
  ground arith,
  record {
    operation_id = "";
    operation_url = url;
    status = "async";
    poll_url = "/api/v1/operations/";
    wait_url = "/api/v1/operations//wait";
  },
  ground arith,
  refl,
  refl,
  refl,
)

async_ref_only_validation :
    (repr : Value → String) (a b : Value) (e : Exn)
    → async_ref repr a b ≡ err e
    → e ≡ validation_error
unfolding async_ref as_str
async_ref_only_validation repr a b e h = ground arith

-- The reference to an operation fails only where LXD sends an id or a URL that is no text.
pub to_async_ref_only_validation :
    (repr : Value → String) (v : Value) (e : Exn)
    → to_async_ref repr v ≡ err e
    → e ≡ validation_error
unfolding to_async_ref async_ref as_str
to_async_ref_only_validation repr (obj d) e h =
    let id = get_or "id" (str "") d in
    async_ref_only_validation repr id (operation_url repr d id) e h
to_async_ref_only_validation repr v e h = cc
