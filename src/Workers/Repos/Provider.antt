-- ===== src/Workers/Repos/Provider.antt =====
-- The VCS provider as the delete consumer sees it (the GitHub API, not in the repository): a state
-- with a hook and a reviewer bot of each repository, which changes by calls with the token of a
-- user. A call that succeeds has removed the hook or the bot. An error tells nothing of them:
-- `provider.ErrNotFound` of internal/shared/providers/provider/errors.go stands for every answer
-- 404, which GitHub also gives to a user who has no access to the repository.
use golangci_api.Base.{ℕ, String, ◌≡◌, refl, Bool, true, false, if◌then◌else◌}
use golangci_api.Errors.{Error, Result, ok, err, provider_not_found}
use golangci_api.Models.Repo.{Repo}

abbrev pub is_not_found : Error → Bool
is_not_found provider_not_found = true
is_not_found _ = false

-- What the answer to a removal says of the thing to be removed.
abbrev pub Cleared : {S : Type 0} → (S → Bool) → Result (Unit {0}) × S → Type 0
Cleared present (ok _, s) = present s ≡ false
Cleared present (err e, s) = Unit {0}

-- What a call names of a repository: its owner and its name, and the hook's id.
pub record RepoRef : Type 0 where
  pub full_name : String
  pub provider_hook_id : ℕ

abbrev pub ref_of : Repo → RepoRef
ref_of r = record { full_name = r.full_name; provider_hook_id = r.provider_hook_id }

-- The calls take the user whose token they are made with.
pub record Provider (S : Type 0) : Type 0 where
  pub delete_repo_hook : ℕ → RepoRef → S → Result (Unit {0}) × S
  pub remove_collaborator : ℕ → RepoRef → S → Result (Unit {0}) × S
  pub has_hook : RepoRef → S → Bool
  pub has_collaborator : RepoRef → S → Bool
  pub delete_repo_hook_law :
      (user : ℕ) (r : RepoRef) (s : S) → Cleared (has_hook r) (delete_repo_hook user r s)
  pub remove_collaborator_law :
      (user : ℕ) (r : RepoRef) (s : S) → Cleared (has_collaborator r) (remove_collaborator user r s)
  pub remove_collaborator_hook_law :
      (user : ℕ) (r : RepoRef) (s : S)
      → has_hook r s ≡ false
      → has_hook r (remove_collaborator user r s).1 ≡ false

-- A provider with one repository that has a hook or not, and a bot or not.
pub record Remote : Type 0 where
  pub hook : Bool
  pub collaborator : Bool

abbrev pub delete_hook_of : Remote → Result (Unit {0}) × Remote
delete_hook_of s =
    if s.hook then (ok tt, record s { hook = false }) else (err provider_not_found, s)

abbrev pub remove_collaborator_of : Remote → Result (Unit {0}) × Remote
remove_collaborator_of s =
    if s.collaborator
    then (ok tt, record s { collaborator = false })
    else (err provider_not_found, s)

pub delete_hook_of-Cleared :
    (h c : Bool) → Cleared (λ s. s.hook) (delete_hook_of (record { hook = h; collaborator = c }))
delete_hook_of-Cleared true c = refl
delete_hook_of-Cleared false c = tt

pub remove_collaborator_of-Cleared :
    (h c : Bool)
    → Cleared (λ s. s.collaborator) (remove_collaborator_of (record { hook = h; collaborator = c }))
remove_collaborator_of-Cleared h true = refl
remove_collaborator_of-Cleared h false = tt

pub remove_collaborator_of-hook :
    (h c : Bool)
    → h ≡ false
    → (remove_collaborator_of (record { hook = h; collaborator = c })).1.hook ≡ false
remove_collaborator_of-hook h true e = e
remove_collaborator_of-hook h false e = e

unfoldable pub single : Provider Remote
single = record {
  delete_repo_hook = λ user r. delete_hook_of;
  remove_collaborator = λ user r. remove_collaborator_of;
  has_hook = λ r s. s.hook;
  has_collaborator = λ r s. s.collaborator;
  delete_repo_hook_law = λ user r s. delete_hook_of-Cleared s.hook s.collaborator;
  remove_collaborator_law = λ user r s. remove_collaborator_of-Cleared s.hook s.collaborator;
  remove_collaborator_hook_law = λ user r s. remove_collaborator_of-hook s.hook s.collaborator;
}
