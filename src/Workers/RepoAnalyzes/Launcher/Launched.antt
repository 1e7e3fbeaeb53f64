-- ===== src/Workers/RepoAnalyzes/Launcher/Launched.antt =====
-- What a launch has done when it returns, and a launch that is delivered again.
use golangci_api.Base.{
  ℕ, String, ◌≡◌, refl, ◌≢◌, ◌⊎◌, inl, inr, ◌++◌, [], ◌∷◌, some, ap, true, ◌==◌, ==-self, &&-right,
}
use golangci_api.Errors.{Error, Result, ok, err, wrap}
use golangci_api.Sql.{
  count_where, first_where, first-eq-ok, row_at, Unique, row_at-update_where, first_where-row_at,
  first_where-holds,
}
use golangci_api.Models.Repo.{Repo, RepoAnalysisStatus, is_live_status}
use golangci_api.Workers.RepoAnalyzes.Launcher.{
  Env, World, LaunchMessage, RunMessage, next_version, at_version, with_guid, of_repo, with_any_id,
  set_pending, set_launched, pending_copy, new_analysis, run_message, set_pending_changes,
  then_create, finish_tx, create_db_entries, put_run_message, get_access_token,
  put_analysis_into_queue, then_put, with_analysis_guid, launch_found, run,
}
use golangci_api.Workers.RepoAnalyzes.Launcher.Effects.{
  Entered, kept, created, repeated, marked, launched, update_status_cases,
  create_repo_analysis_cases,
}

abbrev pub key : RepoAnalysisStatus → ℕ
key s = s.id

abbrev pub asked : RunMessage → World → World
asked r w = record w { sent = w.sent ++ r ∷ [] }

module _ (v : Env) (m : LaunchMessage) (st : RepoAnalysisStatus) (w : World) where
  finish_failed : (e : Error) (w' : World) → Entered v m st w (finish_tx v w (err e, w'))
  finish_failed e w' = go v.rollback
    where
      go :
          (r : Result (Unit {0}))
          → Entered v m st w (elim r [ err _ ↦ err (wrap e) | ok _ ↦ err e ], w)
      go (err x) = kept (wrap e)
      go (ok _) = kept e

  finish_done :
      (w' : World) → Entered v m st w (ok tt, w') → Entered v m st w (finish_tx v w (ok tt, w'))
  finish_done w' entered = go v.commit
    where
      go :
          (r : Result (Unit {0}))
          → Entered v m st w (elim r [ err e ↦ (err (wrap e), w) | ok _ ↦ (ok tt, w') ])
      go (err e) = kept (wrap e)
      go (ok _) = entered

  pub create_db_entries-Entered : Entered v m st w (create_db_entries v st m w)
  unfolding create_db_entries set_pending_changes
  create_db_entries-Entered = go v.start_tx
    where
      marking : Entered v m st w (finish_tx v w (then_create v m st (set_pending_changes v m st w)))
      marking =
          elim (update_status_cases v st.id st.version (set_pending m (next_version st.version))
            w) [
              | inr (x, e) ↦ rw e (finish_failed (wrap x) w)
              | inl (there, e) ↦
                  rw e (elim (create_repo_analysis_cases v (pending_copy m st) m (marked m st w)) [
                    | inl (absent, f) ↦
                        rw f (finish_done (launched v.now m st w) (created there absent))
                    | inr (inl (present, f)) ↦
                        rw f (finish_done (marked m st w) (repeated there present))
                    | inr (inr (x, w', f)) ↦ rw f (finish_failed (wrap x) w')
                  ])
            ]

      go :
          (r : Result (Unit {0}))
          → Entered v m st w (elim r [
            | err e ↦ (err e, w)
            | ok _ ↦ finish_tx v w (then_create v m st (set_pending_changes v m st w))
          ])
      go (err e) = kept e
      go (ok _) = marking

-- A launch fails before its transaction is committed, or after it, or it has sent its message.
pub data Launching (v : Env) (m : LaunchMessage) (w : World)
    : Result (Unit {0}) × World → Type 0 where
  rejected : (e : Error) → Launching v m w (err e, w)
  entered :
      {w₁ : World} (e : Error) (st : RepoAnalysisStatus)
      → first_where (of_repo m.repo_id) w.statuses ≡ ok st
      → Entered v m st w (ok tt, w₁)
      → Launching v m w (err e, w₁)
  sent :
      {w₁ : World} (st : RepoAnalysisStatus) (repo : Repo) (token : String)
      → first_where (of_repo m.repo_id) w.statuses ≡ ok st
      → first_where (with_any_id m.repo_id) v.repos ≡ ok repo
      → Entered v m st w (ok tt, w₁)
      → Launching v m w (ok tt, asked (run_message repo m st token) w₁)

module _ (v : Env) (m : LaunchMessage) (w : World) where
  then_put-Launching :
      (st : RepoAnalysisStatus) (r : Result (Unit {0}) × World)
      → first_where (of_repo m.repo_id) w.statuses ≡ ok st
      → Entered v m st w r
      → Launching v m w (then_put v m st r)
  unfolding put_analysis_into_queue
  then_put-Launching st (err e, _) f (kept x) = rejected (wrap x)
  then_put-Launching st (ok _, w₁) f done =
      go (v.repo_db.first (with_any_id m.repo_id) v.repos) refl
    where
      put :
          (repo : Repo) (token : String) (r : Result (Unit {0}))
          → first_where (with_any_id m.repo_id) v.repos ≡ ok repo
          → Launching v m w (elim r [
            | err e ↦ (err (wrap e), w₁)
            | ok _ ↦ (ok tt, asked (run_message repo m st token) w₁)
          ])
      put repo token (err e) g = entered (wrap e) st f done
      put repo token (ok _) g = sent st repo token f g done

      token_read :
          (repo : Repo) (t : Result String)
          → first_where (with_any_id m.repo_id) v.repos ≡ ok repo
          → Launching v m w (put_run_message v m st w₁ repo t)
      token_read repo (err e) g = entered (wrap e) st f done
      token_read repo (ok token) g = put repo token (v.put_run (run_message repo m st token)) g

      go :
          (r : Result Repo)
          → v.repo_db.first (with_any_id m.repo_id) v.repos ≡ r
          → Launching v m w (put_analysis_into_queue v m st w₁)
      go (err e) q = rw (q, put_analysis_into_queue) (entered (wrap e) st f done)
      go (ok repo) q =
          rw (q, put_analysis_into_queue)
            (token_read repo (get_access_token v repo)
              (first-eq-ok v.repo_db (with_any_id m.repo_id) v.repos q))

  pub launch_found-Launching :
      (r : Result RepoAnalysisStatus)
      → v.status_db.first (of_repo m.repo_id) w.statuses ≡ r
      → Launching v m w (launch_found v m w r)
  launch_found-Launching (err e) q = rejected (wrap e)
  launch_found-Launching (ok st) q =
      then_put-Launching st (create_db_entries v st m w)
        (first-eq-ok v.status_db (of_repo m.repo_id) w.statuses q)
        (create_db_entries-Entered v m st w)

-- The rows after a transaction.
module _ (now : ℕ) (m : LaunchMessage) (st : RepoAnalysisStatus) (w : World) where
  row_at-marked :
      is_live_status st ≡ true
      → row_at key st.id w.statuses ≡ some st
      → row_at key st.id (marked m st w).statuses
        ≡ some (set_pending m (next_version st.version) st)
  row_at-marked live at =
      rw
        (row_at-update_where key (at_version st.id st.version)
          (set_pending m (next_version st.version)) st.id w.statuses (λ s. refl))
        (rw at (rw (==-self st.id) (rw (==-self st.version) (rw live refl))))

  row_at-launched :
      is_live_status st ≡ true
      → row_at key st.id w.statuses ≡ some st
      → row_at key st.id (launched now m st w).statuses
        ≡ some (
            set_launched now
              (next_version (next_version st.version))
              (set_pending m (next_version st.version) st))
  row_at-launched live at =
      rw
        (row_at-update_where key (at_version st.id (next_version st.version))
          (set_launched now (next_version (next_version st.version))) st.id (marked m st w).statuses
          (λ s. refl))
        (rw (row_at-marked live at)
          (rw (==-self st.id) (rw (==-self (next_version st.version)) (rw live refl))))

-- The analysis with the GUID of the message exists, and the launch has written the row.
abbrev pub Analyzed : Env → LaunchMessage → RepoAnalysisStatus → World → World → Type 0
Analyzed v m st w w' =
    ((count_where (with_guid m.analysis_guid) w.analyses ≡ 0)
      × (w'.analyses ≡ w.analyses ++ new_analysis (pending_copy m st) m ∷ [])
      × (row_at key st.id w'.statuses
          ≡ some (
              set_launched v.now (next_version (next_version st.version))
                (set_pending m (next_version st.version) st))))
    ⊎ ((count_where (with_guid m.analysis_guid) w.analyses ≢ 0)
        × (w'.analyses ≡ w.analyses)
        × (row_at key st.id w'.statuses ≡ some (set_pending m (next_version st.version) st)))

module _ (v : Env) (m : LaunchMessage) (w : World) where
  -- What the outcome of a launch says, of its message with the GUID filled in.
  abbrev pub Launched : Result (Unit {0}) × World → Type 0
  Launched (ok _, w') =
      (st : RepoAnalysisStatus) × (repo : Repo) × (token : String) × (first_where
          (of_repo m.repo_id) w.statuses
        ≡ ok st)
      × (first_where (with_any_id m.repo_id) v.repos ≡ ok repo)
      × (w'.sent ≡ w.sent ++ run_message repo m st token ∷ [])
      × Analyzed v m st w w'
  Launched (err e, w') =
      (w'.sent ≡ w.sent)
      × ((w' ≡ w)
          ⊎ ((st : RepoAnalysisStatus) × (first_where (of_repo m.repo_id) w.statuses ≡ ok st)
              × Analyzed v m st w w'))

  -- the row of the branch that was found is live
  live_status :
      (st : RepoAnalysisStatus)
      → first_where (of_repo m.repo_id) w.statuses ≡ ok st
      → is_live_status st ≡ true
  live_status st f =
      &&-right (st.repo_id == m.repo_id) _ (first_where-holds (of_repo m.repo_id) w.statuses f)

  Entered-Analyzed :
      (st : RepoAnalysisStatus) {w₁ : World}
      → Unique key w.statuses
      → first_where (of_repo m.repo_id) w.statuses ≡ ok st
      → Entered v m st w (ok tt, w₁)
      → (w₁.sent ≡ w.sent) × Analyzed v m st w w₁
  Entered-Analyzed st u f (created there absent) =
      let at = first_where-row_at key (of_repo m.repo_id) w.statuses u f in
      (refl, inl (absent, refl, row_at-launched v.now m st w (live_status st f) at))
  Entered-Analyzed st u f (repeated there present) =
      let at = first_where-row_at key (of_repo m.repo_id) w.statuses u f in
      (refl, inr (present, refl, row_at-marked v.now m st w (live_status st f) at))

  Launching-Launched :
      (r : Result (Unit {0}) × World) → Unique key w.statuses → Launching v m w r → Launched r
  Launching-Launched r u (rejected e) = (refl, inl refl)
  Launching-Launched r u (entered e st f done) =
      let (same, analyzed) = Entered-Analyzed st u f done in (same, inr (st, f, analyzed))
  Launching-Launched r u (sent {w₁} st repo token f g done) =
      let (same, analyzed) = Entered-Analyzed st u f done in
      (st, repo, token, f, g, ap (λ t. t ++ run_message repo m st token ∷ []) same, analyzed)

module _ (v : Env) (m : LaunchMessage) (w : World) where
  -- A launch that succeeds found the row of the branch and the repository, sent one message, and
  -- in one transaction created the analysis and cleared the mark, or, if an analysis with the GUID
  -- exists, only set the mark. A launch that fails sent nothing, and has written all of its
  -- transaction or nothing. Row keys are unique.
  pub run-Launched : Unique key w.statuses → Launched v (with_analysis_guid v m) w (run v m w)
  unfolding run
  run-Launched u = Launching-Launched v (with_analysis_guid v m) w (run v m w) u (
      launch_found-Launching v (with_analysis_guid v m) w
        (v.status_db.first (of_repo (with_analysis_guid v m).repo_id) w.statuses) refl)
