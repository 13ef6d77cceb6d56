-- ===== src/App/Raises.antt =====
-- What an action may raise: one rule for each way to build an action.
use mathlib.Core.Path.{subst}
use lxd_management_api.Base.{ℕ, String, ◌≡◌, refl}
use lxd_management_api.Error.{
  LxdError, Exn, http, lxd, token_error, value_error, validation_error, type_error, invalid_url,
  unicode_error, Result, ok, err, convert_lxd,
}
use lxd_management_api.App.{
  M, Log, pure, raise, lift, resume, ◌>>=◌, ◌>>◌, rescue, try_except, to_http,
}

-- An `HTTPException`, or one of the two exceptions that nothing in the program catches.
pub data IsUsual : Exn → Type 0 where
  of_http : (status : ℕ) (detail : String) → IsUsual (http status detail)
  of_url : (exc : String) → IsUsual (invalid_url exc)
  of_unicode : IsUsual unicode_error

-- An `HTTPException`, an `LXDError`, or an `httpx.InvalidURL`.
pub data IsExpected : Exn → Type 0 where
  expected_http : (status : ℕ) (detail : String) → IsExpected (http status detail)
  expected_lxd : (exc : LxdError) → IsExpected (lxd exc)
  expected_url : (exc : String) → IsExpected (invalid_url exc)

-- Every exception of the action is of a kind.
pub record Raises {A : Type 0} (P : Exn → Type 0) (m : M A) : Type 0 where
  pub at : (log : Log) (e : Exn) → (m log).0 ≡ err e → P e

pub convert_lxd-IsUsual : (e : Exn) → IsExpected e → IsUsual (convert_lxd e)
unfolding convert_lxd
convert_lxd-IsUsual (http status detail) h = of_http status detail
convert_lxd-IsUsual (lxd exc) h = of_http _ exc.message
convert_lxd-IsUsual (token_error _) h = elim h [ ]
convert_lxd-IsUsual (value_error _) h = elim h [ ]
convert_lxd-IsUsual validation_error h = elim h [ ]
convert_lxd-IsUsual type_error h = elim h [ ]
convert_lxd-IsUsual (invalid_url exc) h = of_url exc
convert_lxd-IsUsual unicode_error h = elim h [ ]

pub raised_same :
    {A : Type 0} (P : Exn → Type 0) {x y : Exn} → ◌≡◌ {A = Result A} (err x) (err y) → P x → P y
raised_same P {x} {y} h p = let same : x ≡ y = cc in subst P same p

module _ {A : Type 0} {P : Exn → Type 0} where
  pub Raises-pure : (a : A) → Raises P (pure a)
  unfolding pure
  Raises-pure a = record { at = λ log e h. cc }

  pub Raises-raise : (e : Exn) → P e → Raises P (raise {A = A} e)
  unfolding raise
  Raises-raise e p = record { at = λ log x h. raised_same P h p }

  pub Raises-lift : (r : Result A) → ((e : Exn) → r ≡ err e → P e) → Raises P (lift r)
  unfolding lift
  Raises-lift r k = record { at = λ log e h. k e h }

  rescue-Raises :
      {Q : Exn → Type 0} (handler : Exn → M A) (p : Result A × Log)
      → ((e : Exn) → p.0 ≡ err e → Q e)
      → ((e : Exn) → Q e → Raises P (handler e))
      → (e : Exn) → (rescue handler p).0 ≡ err e
      → P e
  unfolding rescue
  rescue-Raises handler (ok a, log) k l e h = cc
  rescue-Raises handler (err x, log) k l e h = (l x (k x refl)).at log e h

  pub Raises-try_except :
      {Q : Exn → Type 0} (m : M A) (handler : Exn → M A)
      → Raises Q m
      → ((e : Exn) → Q e → Raises P (handler e))
      → Raises P (try_except m handler)
  unfolding try_except
  Raises-try_except m handler k l = record {
    at = λ log. rescue-Raises handler (m log) (k.at log) l;
  }

module _ {A : Type 0} where
  pub Raises-to_http : (m : M A) → Raises IsExpected m → Raises IsUsual (to_http m)
  unfolding to_http
  Raises-to_http m k =
      Raises-try_except m _ k (λ e p. Raises-raise (convert_lxd e) (convert_lxd-IsUsual e p))

module _ {A B : Type 0} {P : Exn → Type 0} where
  resume-Raises :
      (f : A → M B) (p : Result A × Log)
      → ((e : Exn) → p.0 ≡ err e → P e)
      → ((a : A) → Raises P (f a))
      → (e : Exn) → (resume f p).0 ≡ err e
      → P e
  unfolding resume
  resume-Raises f (ok a, log) k l e h = (l a).at log e h
  resume-Raises f (err x, log) k l e h = raised_same P h (k x refl)

  pub Raises-bind :
      (m : M A) (f : A → M B) → Raises P m → ((a : A) → Raises P (f a)) → Raises P (m >>= f)
  unfolding ◌>>=◌
  Raises-bind m f k l = record { at = λ log. resume-Raises f (m log) (k.at log) l }

  pub Raises-then : (m : M A) (n : M B) → Raises P m → Raises P n → Raises P (m >> n)
  unfolding ◌>>◌
  Raises-then m n k l = Raises-bind m _ k (λ _. l)

pub ruleset raises_rules = (Raises-pure, Raises-to_http, Raises-bind, Raises-then)
