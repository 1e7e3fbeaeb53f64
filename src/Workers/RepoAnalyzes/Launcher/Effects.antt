-- ===== src/Workers/RepoAnalyzes/Launcher/Effects.antt =====
-- What the transaction and the whole launch change, each as the set of its outcomes.
use golangci_api.Base.{ℕ, ◌≡◌, refl, ◌≢◌, ◌⊎◌, inl, inr, ◌++◌, [], ◌∷◌, arith, ◌==◌, Bool-cases}
use golangci_api.Errors.{Error, Result, ok, err, wrap, message}
use golangci_api.Sql.{count_where, update_where}
use golangci_api.Models.Repo.{RepoAnalysisStatus}
use golangci_api.Workers.RepoAnalyzes.Launcher.{
  Env, World, LaunchMessage, next_version, at_version, with_guid, set_pending, set_launched,
  pending_copy, new_analysis, update_status, create_new_analysis, create_repo_analysis,
}

abbrev pub with_status : ℕ → ℕ → (RepoAnalysisStatus → RepoAnalysisStatus) → World → World
with_status i version f w = record w { statuses = update_where (at_version i version) f w.statuses }

abbrev pub marked : LaunchMessage → RepoAnalysisStatus → World → World
marked m st w = with_status st.id st.version (set_pending m (next_version st.version)) w

-- The world after a transaction that creates the analysis.
abbrev pub launched : ℕ → LaunchMessage → RepoAnalysisStatus → World → World
launched now m st w =
    with_status st.id (next_version st.version)
      (set_launched now (next_version (next_version st.version)))
      (record (marked m st w) { analyses = w.analyses ++ new_analysis (pending_copy m st) m ∷ [] })

pub data Entered (v : Env) (m : LaunchMessage) (st : RepoAnalysisStatus) (w : World)
    : Result (Unit {0}) × World → Type 0 where
  kept : (e : Error) → Entered v m st w (err e, w)
  created :
      count_where (at_version st.id st.version) w.statuses ≢ 0
      → count_where (with_guid m.analysis_guid) w.analyses ≡ 0
      → Entered v m st w (ok tt, launched v.now m st w)
  repeated :
      count_where (at_version st.id st.version) w.statuses ≢ 0
      → count_where (with_guid m.analysis_guid) w.analyses ≢ 0
      → Entered v m st w (ok tt, marked m st w)

module _ (v : Env) where
  pub update_status_cases :
      (i version : ℕ) (f : RepoAnalysisStatus → RepoAnalysisStatus) (w : World)
      → ((count_where (at_version i version) w.statuses ≢ 0)
          × (update_status v i version f w ≡ (ok tt, with_status i version f w)))
        ⊎ ((e : Error) × (update_status v i version f w ≡ (err e, w)))
  unfolding update_status
  update_status_cases i version f w =
      elim (v.status_db.updates_law (at_version i version) f w.statuses) [
        | inr (x, e) ↦ inr (wrap x, rw (e, update_status) refl)
        | inl e ↦ elim (Bool-cases (count_where (at_version i version) w.statuses == 0)) [
          | inl z ↦ inr (
            message "got race condition updating repo analysis status",
            rw (e, update_status) (rw z refl),
          )
          | inr nz ↦ inl (ground (arith, nz), rw (e, update_status) (rw nz refl))
        ]
      ]

  pub create_repo_analysis_cases :
      (st : RepoAnalysisStatus) (m : LaunchMessage) (w : World)
      → ((count_where (with_guid m.analysis_guid) w.analyses ≡ 0)
          × (create_repo_analysis v st m w ≡ (
            ok tt,
            with_status st.id st.version
                (set_launched v.now (next_version st.version))
                (record w { analyses = w.analyses ++ new_analysis st m ∷ [] }),
          )))
        ⊎ (((count_where (with_guid m.analysis_guid) w.analyses ≢ 0)
              × (create_repo_analysis v st m w ≡ (ok tt, w)))
            ⊎ ((e : Error) × (w' : World) × (create_repo_analysis v st m w ≡ (err e, w'))))
  unfolding create_repo_analysis create_new_analysis
  create_repo_analysis_cases st m w = elim (v.count_law (with_guid m.analysis_guid) w.analyses) [
    | inr (x, e) ↦ inr (inr (wrap x, w, rw (e, create_repo_analysis) refl))
    | inl e ↦ elim (Bool-cases (count_where (with_guid m.analysis_guid) w.analyses == 0)) [
      | inr nz ↦ inr (inl (ground (arith, nz), rw (e, create_repo_analysis) (rw nz refl)))
      | inl z ↦ elim (v.create_law (new_analysis st m) w.analyses) [
        | inr (x, f) ↦ inr (
            inr (
              wrap (wrap x),
              w,
              rw (e, create_repo_analysis) (rw z (rw (f, create_new_analysis) refl)),
            ))
        | inl f ↦
            elim (update_status_cases st.id st.version
              (set_launched v.now (next_version st.version))
              (record w { analyses = w.analyses ++ new_analysis st m ∷ [] })) [
                | inl (_, g) ↦ inl (
                  ground (arith, z),
                  rw (e, create_repo_analysis) (rw z (rw (f, create_new_analysis) g)),
                )
                | inr (x, g) ↦ inr (
                    inr (
                      x,
                      record w { analyses = w.analyses ++ new_analysis st m ∷ [] },
                      rw (e, create_repo_analysis) (rw z (rw (f, create_new_analysis) g)),
                    ))
              ]
      ]
    ]
  ]
