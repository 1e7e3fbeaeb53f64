-- ===== src/Authorizer.antt =====
-- pkg/api/auth/authorizer.go: the user of a request's session. The session store is a parameter;
-- the number that a session holds for the user id is a natural number.
use golangci_api.Base.{ℕ, List, Option, none, some}
use golangci_api.Errors.{Result, ok, err, wrapped, not_authorized, ◌>>=◌}
use golangci_api.Sql.{Sql}
use golangci_api.Models.Auth.{Auth, User, of_user, user_with_id}

pub record Deps : Type 0 where
  pub auth_db : Sql Auth
  pub user_db : Sql User

-- The tables that a request reads, and what the session store answers for it.
pub record Session : Type 0 where
  pub auths : List Auth
  pub users : List User
  pub user_id : Result (Option ℕ)

abbrev pub auth_of : Deps → Session → Option ℕ → Result Auth
auth_of d s none = err not_authorized
auth_of d s (some i) = wrapped (d.auth_db.first (of_user i) s.auths)

abbrev pub with_user : Deps → Session → Auth → Result (Auth × User)
with_user d s a = wrapped (d.user_db.first (user_with_id a.user_id) s.users) >>= λ u. ok (a, u)

-- Authorizer.Authorize
abbrev pub authorize : Deps → Session → Result (Auth × User)
authorize d s = wrapped s.user_id >>= auth_of d s >>= with_user d s
