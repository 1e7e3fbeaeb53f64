-- ===== src/Workers/RepoAnalyzes/Launcher.antt =====
-- pkg/api/workers/primaryqueue/repoanalyzes/launcher.go: in one transaction the consumer marks the
-- branch as having pending changes, creates the analysis if there is none with its GUID, and
-- clears the mark; then it asks the worker's queue for the analysis.
pub mod Effects
pub mod Launched
pub mod Redelivery
mod Examples
use golangci_api.Base.{
  ℕ, ◌+◌, ◌%◌, ◌^◌, String, Bool, true, false, ◌&&◌, ◌≡◌, ◌⊎◌, List, [], ◌∷◌, ◌++◌, Option, none,
  some, ◌==◌, str_eq, if◌then◌else◌,
}
use golangci_api.Errors.{Error, Result, ok, err, wrap, wrapped, message}
use golangci_api.Sql.{Sql, count_where}
use golangci_api.Models.Repo.{Repo, RepoAnalysisStatus, is_live_status}

pub record LaunchMessage : Type 0 where
  pub repo_id : ℕ
  pub commit_sha : String
  pub analysis_guid : String

-- models.RepoAnalysis, whose result is "{}" here
pub record RepoAnalysis : Type 0 where
  pub repo_analysis_status_id : ℕ
  pub analysis_guid : String
  pub status : String
  pub commit_sha : String
  pub attempt_number : ℕ
  pub linters_version : String

-- models.Auth, as far as the launcher reads it
pub record Auth : Type 0 where
  pub user_id : ℕ
  pub private_access_token : String

-- repoanalyzesqueue.runMessage
pub record RunMessage : Type 0 where
  pub repo_name : String
  pub analysis_guid : String
  pub branch : String
  pub private_access_token : String
  pub commit_sha : String

-- The tables that the launcher writes, and the messages to the worker, oldest first.
pub record World : Type 0 where
  pub statuses : List RepoAnalysisStatus
  pub analyses : List RepoAnalysis
  pub sent : List RunMessage

-- The database, with the rows that are only read, the queue, a new GUID and the time. An INSERT
-- that succeeds adds the row; a count that succeeds counts.
pub record Env : Type 0 where
  pub connect : Result (Unit {0})
  pub start_tx : Result (Unit {0})
  pub commit : Result (Unit {0})
  pub rollback : Result (Unit {0})
  pub status_db : Sql RepoAnalysisStatus
  pub repo_db : Sql Repo
  pub repos : List Repo
  pub auth_db : Sql Auth
  pub auths : List Auth
  pub count_analyses : (RepoAnalysis → Bool) → List RepoAnalysis → Result ℕ
  pub create_analysis : RepoAnalysis → List RepoAnalysis → Result (List RepoAnalysis)
  pub put_run : RunMessage → Result (Unit {0})
  pub new_guid : String
  pub now : ℕ
  pub count_law :
      (p : RepoAnalysis → Bool) (t : List RepoAnalysis)
      → (count_analyses p t ≡ ok (count_where p t)) ⊎ ((e : Error) × (count_analyses p t ≡ err e))
  pub create_law :
      (a : RepoAnalysis) (t : List RepoAnalysis)
      → (create_analysis a t ≡ ok (t ++ a ∷ [])) ⊎ ((e : Error) × (create_analysis a t ≡ err e))

abbrev pub linters_version : String
linters_version = "v1.10.1"

abbrev pub next_version : ℕ → ℕ
next_version v = (v + 1) % 2 ^ 64

abbrev pub of_repo : ℕ → RepoAnalysisStatus → Bool
of_repo i s = s.repo_id == i && is_live_status s

abbrev pub at_version : ℕ → ℕ → RepoAnalysisStatus → Bool
at_version i v s = s.id == i && (s.version == v && is_live_status s)

abbrev pub with_guid : String → RepoAnalysis → Bool
with_guid g a = str_eq a.analysis_guid g

abbrev pub with_any_id : ℕ → Repo → Bool
with_any_id i r = r.id == i

abbrev pub of_user : ℕ → Auth → Bool
of_user i a = a.user_id == i

abbrev pub set_pending : LaunchMessage → ℕ → RepoAnalysisStatus → RepoAnalysisStatus
set_pending m v s = record s {
  has_pending_changes = true;
  pending_commit_sha = m.commit_sha;
  version = v;
  is_empty = false;
}

abbrev pub set_launched : ℕ → ℕ → RepoAnalysisStatus → RepoAnalysisStatus
set_launched now v s = record s {
  has_pending_changes = false;
  pending_commit_sha = "";
  version = v;
  last_analyzed_at = some now;
  last_analyzed_linters_version = linters_version;
}

-- the local copy after setPendingChanges
abbrev pub pending_copy : LaunchMessage → RepoAnalysisStatus → RepoAnalysisStatus
pending_copy m st = record st {
  version = next_version st.version;
  pending_commit_sha = m.commit_sha;
  has_pending_changes = true;
}

abbrev pub new_analysis : RepoAnalysisStatus → LaunchMessage → RepoAnalysis
new_analysis st m = record {
  repo_analysis_status_id = st.id;
  analysis_guid = m.analysis_guid;
  status = "sent_to_queue";
  commit_sha = st.pending_commit_sha;
  attempt_number = 1;
  linters_version = linters_version;
}

abbrev pub run_message : Repo → LaunchMessage → RepoAnalysisStatus → String → RunMessage
run_message repo m st token = record {
  repo_name = repo.full_name;
  analysis_guid = m.analysis_guid;
  branch = st.default_branch;
  private_access_token = token;
  commit_sha = m.commit_sha;
}

module _ (v : Env) where
  -- An update at a version that must change the row. (Where the second one has not, the code reads
  -- the row once more, for the text of its error.)
  pub update_status :
      ℕ → ℕ → (RepoAnalysisStatus → RepoAnalysisStatus) → World → Result (Unit {0}) × World
  update_status i version f w = elim (v.status_db.updates (at_version i version) f w.statuses) [
    | err e ↦ (err (wrap e), w)
    | ok (n, statuses) ↦
        if n == 0
        then (err (message "got race condition updating repo analysis status"), w)
        else (ok tt, record w { statuses = statuses })
  ]

  pub set_pending_changes : LaunchMessage → RepoAnalysisStatus → World → Result (Unit {0}) × World
  unfolding update_status
  set_pending_changes m st w =
      update_status st.id st.version (set_pending m (next_version st.version)) w

  -- createNewAnalysis, then the second update
  pub create_new_analysis : RepoAnalysisStatus → LaunchMessage → World → Result (Unit {0}) × World
  unfolding update_status
  create_new_analysis st m w = elim (v.create_analysis (new_analysis st m) w.analyses) [
    | err e ↦ (err (wrap (wrap e)), w)
    | ok analyses ↦
        update_status st.id st.version (set_launched v.now (next_version st.version))
          (record w { analyses = analyses })
  ]

  pub create_repo_analysis : RepoAnalysisStatus → LaunchMessage → World → Result (Unit {0}) × World
  unfolding create_new_analysis
  create_repo_analysis st m w = elim (v.count_analyses (with_guid m.analysis_guid) w.analyses) [
    | err e ↦ (err (wrap e), w)
    | ok n ↦ if n == 0 then create_new_analysis st m w else (ok tt, w)
  ]

  abbrev pub wrapped_launch : Result (Unit {0}) × World → Result (Unit {0}) × World
  wrapped_launch (err e, w) = (err (wrap e), w)
  wrapped_launch (ok _, w) = (ok tt, w)

  abbrev pub then_create :
      LaunchMessage → RepoAnalysisStatus → Result (Unit {0}) × World → Result (Unit {0}) × World
  then_create m st (err e, w) = (err (wrap e), w)
  then_create m st (ok _, w) = wrapped_launch (create_repo_analysis (pending_copy m st) m w)

  -- finishTx: an error rolls the transaction back, so does a commit that fails
  abbrev pub finish_tx : World → Result (Unit {0}) × World → Result (Unit {0}) × World
  finish_tx before (err e, w) = (elim v.rollback [ err x ↦ err (wrap e) | ok _ ↦ err e ], before)
  finish_tx before (ok _, w) = elim v.commit [ err e ↦ (err (wrap e), before) | ok _ ↦ (ok tt, w) ]

  pub create_db_entries : RepoAnalysisStatus → LaunchMessage → World → Result (Unit {0}) × World
  unfolding set_pending_changes create_repo_analysis
  create_db_entries st m w = elim v.start_tx [
    | err e ↦ (err e, w)
    | ok _ ↦ finish_tx w (then_create m st (set_pending_changes m st w))
  ]

  pub get_access_token : Repo → Result String
  get_access_token repo =
      if repo.is_private
      then elim (v.auth_db.first (of_user repo.user_id) v.auths) [
        | err e ↦ err (wrap e)
        | ok auth ↦ ok auth.private_access_token
      ]
      else ok ""

  abbrev pub put_run_message :
      LaunchMessage → RepoAnalysisStatus → World → Repo → Result String → Result (Unit {0}) × World
  put_run_message m st w repo (err e) = (err (wrap e), w)
  put_run_message m st w repo (ok token) = elim (v.put_run (run_message repo m st token)) [
    | err e ↦ (err (wrap e), w)
    | ok _ ↦ (ok tt, record w { sent = w.sent ++ run_message repo m st token ∷ [] })
  ]

  -- deleted repositories are found too
  pub put_analysis_into_queue :
      LaunchMessage → RepoAnalysisStatus → World → Result (Unit {0}) × World
  unfolding get_access_token
  put_analysis_into_queue m st w = elim (v.repo_db.first (with_any_id m.repo_id) v.repos) [
    | err e ↦ (err (wrap e), w)
    | ok repo ↦ put_run_message m st w repo (get_access_token repo)
  ]

  abbrev pub then_put :
      LaunchMessage → RepoAnalysisStatus → Result (Unit {0}) × World → Result (Unit {0}) × World
  then_put m st (err e, w) = (err (wrap e), w)
  then_put m st (ok _, w) = put_analysis_into_queue m st w

  abbrev pub with_analysis_guid : LaunchMessage → LaunchMessage
  with_analysis_guid m =
      if str_eq m.analysis_guid "" then record m { analysis_guid = v.new_guid } else m

  abbrev pub launch_found :
      LaunchMessage → World → Result RepoAnalysisStatus → Result (Unit {0}) × World
  launch_found m w (err e) = (err (wrap e), w)
  launch_found m w (ok st) = then_put m st (create_db_entries st m w)

  pub run : LaunchMessage → World → Result (Unit {0}) × World
  unfolding create_db_entries put_analysis_into_queue
  run m w =
      launch_found (with_analysis_guid m) w
        (v.status_db.first (of_repo (with_analysis_guid m).repo_id) w.statuses)

  pub consume_message : LaunchMessage → World → Result (Unit {0}) × World
  unfolding run
  consume_message m w = elim v.connect [ err e ↦ (err (wrap e), w) | ok _ ↦ run m w ]
