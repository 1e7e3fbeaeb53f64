-- ===== src/Crons/RepoInfo.antt =====
-- pkg/api/crons/repoinfo/updater.go: the rows of the repositories are brought up to date with what
-- the VCS provider tells of them.
pub mod Silence
pub mod UpToDate
mod Examples
use golangci_api.Base.{
  ℕ, ◌+◌, String, Bool, true, false, not, ◌&&◌, ◌||◌, List, [], ◌∷◌, ◌++◌, Option, none, some, ltb,
  str_eq, ◌==◌, if◌then◌else◌,
}
use golangci_api.Base.Int.{ℤ, same_int}
use golangci_api.Errors.{
  Error, Result, ok, err, wrap, cause, provider_not_found, provider_unauthorized,
}
use golangci_api.Sql.{Sql}
use golangci_api.Sql.Select.{Select}
use golangci_api.Models.Repo.{Repo, with_id, is_live}

-- provider.Repo, as far as the updater reads it
pub record ProviderRepo : Type 0 where
  pub full_name : String
  pub is_private : Bool
  pub stargazers_count : ℤ

-- `to_lower` is strings.ToLower. The time is that of one iteration.
pub record Env : Type 0 where
  pub repo_db : Sql Repo
  pub repo_select : Select Repo
  pub build_for_user : ℕ → Result (Unit {0})
  pub get_repo_by_name : Repo → Result ProviderRepo
  pub to_lower : String → String
  pub print_all_errors : Bool
  pub errors_timeout : ℕ
  pub now : ℕ

abbrev pub same_bool : Bool → Bool → Bool
same_bool true b = b
same_bool false b = not b

abbrev pub need_update : (String → String) → Repo → ProviderRepo → Bool
need_update to_lower r p =
    not (same_int r.stargazers_count p.stargazers_count)
    || not (str_eq r.display_full_name p.full_name)
    || not (str_eq r.full_name (to_lower p.full_name))
    || not (same_bool r.is_private p.is_private)

-- The columns that differ in the row that was read are set.
abbrev pub set_info : (String → String) → Repo → ProviderRepo → Repo → Repo
set_info to_lower r p row = record row {
  stargazers_count =
      if same_int r.stargazers_count p.stargazers_count
      then row.stargazers_count
      else p.stargazers_count;
  display_full_name =
      if str_eq r.display_full_name p.full_name then row.display_full_name else p.full_name;
  full_name =
      if str_eq r.full_name (to_lower p.full_name) then row.full_name else to_lower p.full_name;
  is_private = if same_bool r.is_private p.is_private then row.is_private else p.is_private;
}

-- The table, and the repositories whose failed update the log tells of, in their order.
pub record World : Type 0 where
  pub rows : List Repo
  pub reported : List ℕ

-- The map `lastErrors`.
abbrev pub LastErrors : Type 0
LastErrors = List (ℕ × ℕ)

abbrev pub last_error : ℕ → LastErrors → Option ℕ
last_error i [] = none
last_error i ((j, t) ∷ m) = if j == i then some t else last_error i m

abbrev pub is_cause_unrecoverable : Error → Bool
is_cause_unrecoverable provider_unauthorized = true
is_cause_unrecoverable provider_not_found = true
is_cause_unrecoverable _ = false

abbrev pub by_id : Repo → ℕ
by_id r = r.id

module _ (v : Env) where
  abbrev pub stored : Result (ℕ × List Repo) → List Repo → Result (Unit {0}) × List Repo
  stored (err e) t = (err (wrap e), t)
  stored (ok (n, t')) t = (ok tt, t')

  abbrev pub update_row : Repo → Result ProviderRepo → List Repo → Result (Unit {0}) × List Repo
  update_row r (err e) t = (err (wrap e), t)
  update_row r (ok p) t =
      if need_update v.to_lower r p
      then stored (v.repo_db.updates (with_id r.id) (set_info v.to_lower r p) t) t
      else (ok tt, t)

  abbrev pub with_provider : Repo → Result (Unit {0}) → List Repo → Result (Unit {0}) × List Repo
  with_provider r (err e) t = (err (wrap e), t)
  with_provider r (ok _) t = update_row r (v.get_repo_by_name r) t

  -- updateRepoInfo
  unfoldable pub update_repo_info : Repo → List Repo → Result (Unit {0}) × List Repo
  update_repo_info r t = with_provider r (v.build_for_user r.user_id) t

  abbrev pub report : ℕ → World → World
  report i w = record w { reported = w.reported ++ i ∷ [] }

  -- the errors of a repository are told once in a while
  abbrev pub report_again : ℕ → Option ℕ → LastErrors → World → LastErrors × World
  report_again i none m w = (m, w)
  report_again i (some at) m w =
      if ltb (at + v.errors_timeout) v.now then ((i, v.now) ∷ m, report i w) else (m, w)

  abbrev pub report_if : Bool → ℕ → World → World
  report_if true i w = report i w
  report_if false i w = w

  -- by whether the cause is unrecoverable, and whether all errors are printed
  abbrev pub on_cause : Bool → Bool → ℕ → LastErrors → World → LastErrors × World
  on_cause true print_all i m w = (m, w)
  on_cause false true i m w = (m, w)
  on_cause false false i m w = report_again i (last_error i m) m w

  abbrev pub on_error : ℕ → Error → LastErrors → World → LastErrors × World
  on_error i e m w =
      on_cause (is_cause_unrecoverable (cause e)) v.print_all_errors i m
        (report_if v.print_all_errors i w)

  abbrev pub after_update :
      ℕ → Result (Unit {0}) × List Repo → LastErrors → World → LastErrors × World
  after_update i (err e, t) m w = on_error i e m (record w { rows = t })
  after_update i (ok _, t) m w = (m, record w { rows = t })

  abbrev pub update_each : List Repo → LastErrors × World → LastErrors × World
  update_each [] (m, w) = (m, w)
  update_each (r ∷ rest) (m, w) =
      update_each rest (after_update r.id (update_repo_info r w.rows) m w)

  abbrev pub iterate : Result (List Repo) → LastErrors × World → LastErrors × World
  iterate (err e) s = s
  iterate (ok repos) s = update_each repos s

  -- runIteration, whose own error is only logged
  abbrev pub run_iteration : LastErrors × World → LastErrors × World
  run_iteration (m, w) = iterate (v.repo_select.select is_live by_id none w.rows) (m, w)

-- Run: the iterations one after the other, from an empty map
abbrev pub run_iterations : List Env → LastErrors × World → LastErrors × World
run_iterations [] s = s
run_iterations (v ∷ rest) s = run_iterations rest (run_iteration v s)

unfoldable pub run : List Env → World → LastErrors × World
run iterations w = run_iterations iterations ([], w)
