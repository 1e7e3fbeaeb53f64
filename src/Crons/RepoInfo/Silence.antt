-- ===== src/Crons/RepoInfo/Silence.antt =====
-- What the log tells of repositories whose update fails.
use golangci_api.Base.{ℕ, ◌≡◌, refl, Bool, true, false, List, [], ◌∷◌, none}
use golangci_api.Errors.{Result, ok, err, cause}
use golangci_api.Sql.Select.{Every}
use golangci_api.Models.Repo.{Repo, is_live}
use golangci_api.Crons.RepoInfo.{
  Env, World, LastErrors, run, run_iterations, run_iteration, iterate, update_each, after_update,
  on_cause, report_if, by_id, is_cause_unrecoverable, update_repo_info,
}

-- Nothing is remembered, and nothing was told that was not told before.
abbrev pub Silent : List ℕ → LastErrors × World → Type 0
Silent told (m, w) = (m ≡ []) × (w.reported ≡ told)

module _ (v : Env) (told : List ℕ) where
  on_cause-Silent :
      (unrecoverable print_all : Bool) (i : ℕ) (m : LastErrors) (w : World)
      → print_all ≡ false
      → Silent told (m, w)
      → Silent told (on_cause v unrecoverable print_all i m (report_if v print_all i w))
  on_cause-Silent true true i m w f h = cc
  on_cause-Silent true false i m w f h = h
  on_cause-Silent false true i m w f h = cc
  on_cause-Silent false false i [] w f h = h
  on_cause-Silent false false i (x ∷ m) w f (h, _) = cc

  after_update-Silent :
      (i : ℕ) (r : Result (Unit {0}) × List Repo) (m : LastErrors) (w : World)
      → v.print_all_errors ≡ false
      → Silent told (m, w)
      → Silent told (after_update v i r m w)
  after_update-Silent i (ok _, t) m w f h = h
  after_update-Silent i (err e, t) m w f h =
      on_cause-Silent (is_cause_unrecoverable (cause e)) v.print_all_errors i m
        (record w { rows = t }) f h

  update_each-Silent :
      (repos : List Repo) (s : LastErrors × World)
      → v.print_all_errors ≡ false
      → Silent told s
      → Silent told (update_each v repos s)
  update_each-Silent [] (m, w) f h = h
  update_each-Silent (r ∷ rest) (m, w) f h =
      update_each-Silent rest (after_update v r.id (update_repo_info v r w.rows) m w) f
        (after_update-Silent r.id (update_repo_info v r w.rows) m w f h)

  iterate-Silent :
      (repos : Result (List Repo)) (s : LastErrors × World)
      → v.print_all_errors ≡ false
      → Silent told s
      → Silent told (iterate v repos s)
  iterate-Silent (err e) s f h = h
  iterate-Silent (ok repos) s f h = update_each-Silent repos s f h

run_iterations-Silent :
    (told : List ℕ) (iterations : List Env) (s : LastErrors × World)
    → Every (λ v. v.print_all_errors ≡ false) iterations
    → Silent told s
    → Silent told (run_iterations iterations s)
run_iterations-Silent told [] s f h = h
run_iterations-Silent told (v ∷ rest) (m, w) f h =
    run_iterations-Silent told rest (run_iteration v (m, w)) f.1
      (iterate-Silent v told (v.repo_select.select is_live by_id none w.rows) (m, w) f.0 h)

-- While not all errors are to be printed, the log tells of no failed update, in any number of
-- iterations and whatever fails in them: the map of the last errors has no entry at the start, and
-- an entry is made only where there is one already.
pub run-Silent :
    (iterations : List Env) (w : World)
    → Every (λ v. v.print_all_errors ≡ false) iterations
    → Silent w.reported (run iterations w)
unfolding run
run-Silent iterations w f = run_iterations-Silent w.reported iterations ([], w) f (refl, refl)
