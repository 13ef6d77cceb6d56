-- ===== src/Operation/Waits.antt =====
-- The outcome of waiting for an operation.
use Prim.Native.String.{String}
use lxd_management_api.Base.{
  eq_iff, ◌≡◌, refl, ap, ◌∙◌, ◌≢◌, ◌⊎◌, inl, inr, none, some, Option-cases, arith,
}
use lxd_management_api.Json.{Value, str, obj, Dict, get, get_or}
use lxd_management_api.Error.{lxd, ok, err}
use lxd_management_api.Operation.{ended_badly, failed_operation, wait_result}

-- A wait fails exactly where LXD reports the status `Failure` or `Cancelled`.
abbrev pub EndedBadly : Dict → Type 0
EndedBadly d = (get "status" d ≡ some (str "Failure")) ⊎ (get "status" d ≡ some (str "Cancelled"))

ended_badly-none : (v : Value) → v ≢ str "Failure" → v ≢ str "Cancelled" → ended_badly v ≡ none
unfolding ended_badly
ended_badly-none (str s) h k = ground (
  arith,
  eq_iff s "Failure",
  eq_iff s "Cancelled",
  λ (e : s ≡ "Failure"). h (ap str e),
  λ (e : s ≡ "Cancelled"). k (ap str e),
)
ended_badly-none _ h k = refl

ended_badly_fine : (d : Dict) → ¬ EndedBadly d → ended_badly (get_or "status" (str "") d) ≡ none
unfolding ended_badly get_or
ended_badly_fine d fine = elim (Option-cases (get "status" d)) [
  | inl e ↦ rw (e, get_or) refl
  | inr (v, e) ↦
      rw (e, get_or)
        (ended_badly-none v (λ p. fine (inl (e ∙ ap some p))) (λ p. fine (inr (e ∙ ap some p))))
]

ended_badly_bad :
    (s : String) (d : Dict)
    → get "status" d ≡ some (str s)
    → ended_badly (str s) ≡ some s
    → ended_badly (get_or "status" (str "") d) ≡ some s
unfolding get_or
ended_badly_bad s d e h = rw (e, get_or) h

-- `wait_result` returns the dictionary that LXD answers a wait with, if its status is neither
-- `Failure` nor `Cancelled`.
pub wait_result_fine :
    (repr : Value → String) (id : String) (d : Dict)
    → ¬ EndedBadly d
    → wait_result repr id (obj d) ≡ ok d
unfolding wait_result ended_badly
wait_result_fine repr id d fine = rw (ended_badly_fine d fine, wait_result)

-- If the status in the dictionary that LXD answers a wait with is `Failure` or `Cancelled`,
-- `wait_result` raises the error of a failed operation with that status.
pub wait_result_failed :
    (repr : Value → String) (id : String) (d : Dict)
    → EndedBadly d
    → (status : String) × (get "status" d ≡ some (str status))
      × (wait_result repr id (obj d) ≡ err (lxd (failed_operation repr id status d)))
unfolding wait_result ended_badly
wait_result_failed repr id d (inl e) =
    ("Failure", e, rw (ended_badly_bad "Failure" d e refl, wait_result))
wait_result_failed repr id d (inr e) =
    ("Cancelled", e, rw (ended_badly_bad "Cancelled" d e refl, wait_result))
