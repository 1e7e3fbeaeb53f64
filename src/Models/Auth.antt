-- ===== src/Models/Auth.antt =====
-- pkg/api/models/auth.go and user.go: who a user is at the VCS provider.
use golangci_api.Base.{ℕ, String, Bool, ◌==◌}

pub record Auth : Type 0 where
  pub user_id : ℕ
  pub provider : String
  pub login : String
  pub access_token : String
  pub private_access_token : String

pub record User : Type 0 where
  pub id : ℕ

abbrev pub of_user : ℕ → Auth → Bool
of_user i a = a.user_id == i

abbrev pub user_with_id : ℕ → User → Bool
user_with_id i u = u.id == i
