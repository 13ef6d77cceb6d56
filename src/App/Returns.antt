-- ===== src/App/Returns.antt =====
-- What an action may return: one rule for each way to build an action.
use mathlib.Core.Path.{subst}
use lxd_management_api.Base.{◌≡◌, refl}
use lxd_management_api.Error.{Exn, Result, ok, err}
use lxd_management_api.App.{M, Log, pure, raise, lift, resume, ◌>>=◌, ◌>>◌}

-- Every value that the action returns is of a kind.
pub record Returns {A : Type 0} (P : A → Type 0) (m : M A) : Type 0 where
  pub at : (log : Log) (a : A) → (m log).0 ≡ ok a → P a

returned_same :
    {A : Type 0} (P : A → Type 0) {x y : A} → ◌≡◌ {A = Result A} (ok x) (ok y) → P x → P y
returned_same P {x} {y} h p = let same : x ≡ y = cc in subst P same p

module _ {A : Type 0} {P : A → Type 0} where
  pub Returns-pure : (a : A) → P a → Returns P (pure a)
  unfolding pure
  Returns-pure a p = record { at = λ log x h. returned_same P h p }

  pub Returns-raise : (e : Exn) → Returns P (raise e)
  unfolding raise
  Returns-raise e = record { at = λ log x h. cc }

  pub Returns-lift : (r : Result A) → ((a : A) → r ≡ ok a → P a) → Returns P (lift r)
  unfolding lift
  Returns-lift r k = record { at = λ log a h. k a h }

module _ {A B : Type 0} {P : B → Type 0} where
  resume-Returns :
      (f : A → M B) (p : Result A × Log)
      → ((a : A) → Returns P (f a))
      → (b : B) → (resume f p).0 ≡ ok b
      → P b
  unfolding resume
  resume-Returns f (ok a, log) l b h = (l a).at log b h
  resume-Returns f (err x, log) l b h = cc

  pub Returns-bind : (m : M A) (f : A → M B) → ((a : A) → Returns P (f a)) → Returns P (m >>= f)
  unfolding ◌>>=◌
  Returns-bind m f l = record { at = λ log. resume-Returns f (m log) l }

  pub Returns-then : (m : M A) (n : M B) → Returns P n → Returns P (m >> n)
  unfolding ◌>>◌
  Returns-then m n l = Returns-bind m _ (λ _. l)

module _ {A B : Type 0} {P : A → Type 0} {Q : B → Type 0} where
  resume-Returns_of :
      (f : A → M B) (p : Result A × Log)
      → ((a : A) → p.0 ≡ ok a → P a)
      → ((a : A) → P a → Returns Q (f a))
      → (b : B) → (resume f p).0 ≡ ok b
      → Q b
  unfolding resume
  resume-Returns_of f (ok a, log) k l b h = (l a (k a refl)).at log b h
  resume-Returns_of f (err x, log) k l b h = cc

  -- The rule for a continuation that relies on what the first action returns.
  pub Returns-bind_of :
      (m : M A) (f : A → M B)
      → Returns P m
      → ((a : A) → P a → Returns Q (f a))
      → Returns Q (m >>= f)
  unfolding ◌>>=◌
  Returns-bind_of m f k l = record { at = λ log. resume-Returns_of f (m log) (k.at log) l }

pub ruleset returns_rules = (Returns-pure, Returns-raise, Returns-bind, Returns-then)
