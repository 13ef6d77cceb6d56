-- ===== src/App/Keeps.antt =====
-- Conversion of errors, and what an action may send: one rule for each way to build an action.
use lxd_management_api.Base.{◌==◌, ◌≡◌, refl, Bool, true, false, [], ◌∷◌, if◌then◌else◌}
use lxd_management_api.Error.{Exn, Result, ok, err, convert_lxd}
use lxd_management_api.App.{
  M, Log, pure, raise, lift, resume, ◌>>=◌, ◌>>◌, rescue, try_except, to_http,
}

abbrev pub converted : {A : Type 0} → Result A → Result A
converted (ok a) = ok a
converted (err e) = err (convert_lxd e)

rescue-raise :
    {A : Type 0} (p : Result A × Log) → rescue (λ e. raise (convert_lxd e)) p ≡ (converted p.0, p.1)
unfolding rescue raise
rescue-raise (ok a, log) = refl
rescue-raise (err e, log) = refl

-- `to_http` changes the error of an action, and neither its result nor what it sends.
pub to_http_lem :
    {A : Type 0} (m : M A) (log : Log) → to_http m log ≡ (converted (m log).0, (m log).1)
unfolding to_http
to_http_lem m log = rescue-raise (m log)

-- The requests of a log that are not GET requests.
unfoldable pub mutations : Log → Log
mutations [] = []
mutations (r ∷ log) = let rest = mutations log in if r.method == "GET" then rest else r ∷ rest

-- The action keeps a property of the log, whether it returns or raises.
pub record Keeps {ℓ} {A : Type 0} (P : Log → Type ℓ) (m : M A) : Type ℓ where
  pub at : (log : Log) → P log → P (m log).1

module _ {ℓ} {A : Type 0} {P : Log → Type ℓ} where
  pub Keeps-pure : (a : A) → Keeps P (pure a)
  unfolding pure
  Keeps-pure a = record { at = λ log h. h }

  pub Keeps-raise : (e : Exn) → Keeps P (raise {A = A} e)
  unfolding raise
  Keeps-raise e = record { at = λ log h. h }

  pub Keeps-lift : (r : Result A) → Keeps P (lift r)
  unfolding lift
  Keeps-lift r = record { at = λ log h. h }

  rescue-Keeps :
      (handler : Exn → M A) (p : Result A × Log)
      → ((e : Exn) → Keeps P (handler e))
      → P p.1
      → P (rescue handler p).1
  unfolding rescue
  rescue-Keeps handler (ok a, log) k h = h
  rescue-Keeps handler (err e, log) k h = (k e).at log h

  pub Keeps-try_except :
      (m : M A) (handler : Exn → M A)
      → Keeps P m
      → ((e : Exn) → Keeps P (handler e))
      → Keeps P (try_except m handler)
  unfolding try_except
  Keeps-try_except m handler k l = record {
    at = λ log h. rescue-Keeps handler (m log) l (k.at log h);
  }

  pub Keeps-to_http : (m : M A) → Keeps P m → Keeps P (to_http m)
  unfolding to_http
  Keeps-to_http m k = Keeps-try_except m _ k (λ e. Keeps-raise (convert_lxd e))

  pub Keeps-if : (b : Bool) (m n : M A) → Keeps P m → Keeps P n → Keeps P (if b then m else n)
  Keeps-if true m n k l = k
  Keeps-if false m n k l = l

module _ {ℓ} {A B : Type 0} {P : Log → Type ℓ} where
  resume-Keeps :
      (f : A → M B) (p : Result A × Log) → ((a : A) → Keeps P (f a)) → P p.1 → P (resume f p).1
  unfolding resume
  resume-Keeps f (ok a, log) k h = (k a).at log h
  resume-Keeps f (err e, log) k h = h

  pub Keeps-bind :
      (m : M A) (f : A → M B) → Keeps P m → ((a : A) → Keeps P (f a)) → Keeps P (m >>= f)
  unfolding ◌>>=◌
  Keeps-bind m f k l = record { at = λ log h. resume-Keeps f (m log) l (k.at log h) }

  pub Keeps-then : (m : M A) (n : M B) → Keeps P m → Keeps P n → Keeps P (m >> n)
  unfolding ◌>>◌
  Keeps-then m n k l = Keeps-bind m _ k (λ _. l)

pub ruleset keeps_rules = (
  Keeps-pure, Keeps-raise, Keeps-lift, Keeps-try_except, Keeps-to_http, Keeps-if, Keeps-bind,
  Keeps-then,
)
