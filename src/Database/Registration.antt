-- ===== src/Database/Registration.antt =====
-- A request to `register` in the session that `get_db` gives it.
use mathlib.Core.Path.{subst}
use lxd_management_api.Base.{String, ◌≡◌, refl, ap, []}
use lxd_management_api.Error.{Result, ok, err}
use lxd_management_api.Security.{Crypt, admin, role_value}
use lxd_management_api.Users.{User}
use lxd_management_api.Auth.{UserCreate, register, registered, conflict_or, user_out}
use lxd_management_api.Deps.{Auth, require_role}
use lxd_management_api.Database.{Sessions, IsSound, get_db, answer_created, register_in}
use lxd_management_api.Database.Laws.{
  Matches, get_db-Matches, create_user_in-Matches, err-injective, same_value,
}

-- `register` in a session, over the store of the authentication.
module _ (auth : Auth) (crypt : Crypt) (salt : String) (lib : Sessions auth.users)
    (sound : IsSound lib) where
  answer-Matches :
      (p : Result User × lib.Session) (q : Result User × auth.users.State)
      → Matches lib sound p q
      → Matches lib sound (answer_created lib auth.repr crypt salt p) (registered auth crypt q)
  unfolding answer_created registered conflict_or
  answer-Matches (ok u, t) (ok v, s) m = record {
    answers = ap user_out (same_value m.answers);
    stores = m.stores;
    settled = m.settled;
  }
  answer-Matches (ok u, t) (err e, s) m = cc (m.answers)
  answer-Matches (err e, t) (ok v, s) m = cc (m.answers)
  answer-Matches (err e, t) (err x, s) m = record {
    answers = ap (λ y. err (conflict_or auth crypt y)) (err-injective m.answers);
    stores = m.stores;
    settled = m.settled;
  }

  register_in-case :
      (caller : Result User) (payload : UserCreate) (t : lib.Session) (allowed : Result User)
      → require_role admin caller ≡ allowed
      → lib.pending t ≡ []
      → Matches lib sound
          (register_in lib auth.repr crypt salt caller payload t)
          (register auth crypt salt (lib.stored t) caller payload)
  unfolding register_in register
  register_in-case caller payload t (err e) h nothing =
      rw (h, register_in, register) (record { answers = refl; stores = refl; settled = nothing })
  register_in-case caller payload t (ok u) h nothing =
      rw (h, register_in, register)
        (answer-Matches _ _ (
          create_user_in-Matches lib sound auth.repr crypt salt t payload.username payload.password
            (role_value payload.role) nothing))

  -- Over a library of sessions that keeps its promises, a request to `register` in a session of `get_db`
  -- gives the answer, and leaves the store, that the one call `register` gives on the store.
  pub get_db-register :
      (caller : Result User) (payload : UserCreate) (s : auth.users.State)
      → get_db lib (register_in lib auth.repr crypt salt caller payload) s
        ≡ register auth crypt salt s caller payload
  get_db-register caller payload s =
      get_db-Matches lib sound (register_in lib auth.repr crypt salt caller payload) s _ (
        subst
          (λ x.
            Matches lib sound (register_in lib auth.repr crypt salt caller payload (lib.begin s))
              (register auth crypt salt x caller payload))
          (sound.begin-stored s)
          (register_in-case caller payload (lib.begin s) _ refl (sound.begin-pending s)))
