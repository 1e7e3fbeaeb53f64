-- ===== src/Workers/RepoAnalyzes/Launcher/Redelivery.antt =====
-- A launch whose message is delivered again.
use golangci_api.Base.{
  ℕ, String, suc, ◌≡◌, refl, ◌≢◌, ◌++◌, List, [], ◌∷◌, arith, Bool, true, str_eq, eq_iff, subst,
  Bool-cases, inl, inr,
}
use golangci_api.Errors.{Result, ok}
use golangci_api.Sql.{count_where}
use golangci_api.Models.Repo.{RepoAnalysisStatus}
use golangci_api.Workers.RepoAnalyzes.Launcher.{
  Env, World, LaunchMessage, RepoAnalysis, with_guid, pending_copy, new_analysis,
  with_analysis_guid, of_repo, run,
}
use golangci_api.Workers.RepoAnalyzes.Launcher.Effects.{Entered, created, repeated}
use golangci_api.Workers.RepoAnalyzes.Launcher.Launched.{
  Launching, rejected, entered, sent, launch_found-Launching,
}

abbrev pub count_guid : String → World → ℕ
count_guid g w = count_where (with_guid g) w.analyses

count_where-append :
    (p : RepoAnalysis → Bool) (t : List RepoAnalysis) (a : RepoAnalysis)
    → p a ≡ true
    → count_where p (t ++ a ∷ []) ≡ suc (count_where p t)
count_where-append p [] a h = rw h refl
count_where-append p (x ∷ t) a h = ground (arith, count_where-append p t a h)

with_analysis_guid-kept :
    (v : Env) (m : LaunchMessage) → m.analysis_guid ≢ "" → with_analysis_guid v m ≡ m
with_analysis_guid-kept v m n = elim (Bool-cases (str_eq m.analysis_guid "")) [
  | inl t ↦ absurd (n ((eq_iff m.analysis_guid "").0 t))
  | inr f ↦ rw f refl
]

module _ (v : Env) (m : LaunchMessage) (w : World) where
  run-Launching : m.analysis_guid ≢ "" → Launching v m w (run v m w)
  unfolding run
  run-Launching n =
      subst (λ x. Launching v x w (run v m w)) (with_analysis_guid-kept v m n)
        (launch_found-Launching v (with_analysis_guid v m) w
          (v.status_db.first (of_repo (with_analysis_guid v m).repo_id) w.statuses) refl)

  -- After a committed transaction there is an analysis with the GUID, and only one more than before
  -- if there was none.
  Entered-present :
      (st : RepoAnalysisStatus) {w₁ : World}
      → Entered v m st w (ok tt, w₁)
      → count_guid m.analysis_guid w₁ ≢ 0
  Entered-present st (created there absent) =
      let added =
        count_where-append (with_guid m.analysis_guid) w.analyses
          (new_analysis (pending_copy m st) m) ((eq_iff m.analysis_guid m.analysis_guid).1 refl) in
      λ none_left. ground (arith, added, none_left)
  Entered-present st (repeated there present) = present

  Launching-present :
      {r : Result (Unit {0}) × World}
      → r.0 ≡ ok tt
      → Launching v m w r
      → count_guid m.analysis_guid r.1 ≢ 0
  Launching-present h (rejected e) = cc
  Launching-present h (entered e st f done) = cc
  Launching-present h (sent st repo token f g done) = Entered-present st done

  Entered-same :
      (st : RepoAnalysisStatus) {w₁ : World}
      → count_guid m.analysis_guid w ≢ 0
      → Entered v m st w (ok tt, w₁)
      → w₁.analyses ≡ w.analyses
  Entered-same st present (created there absent) = absurd (present absent)
  Entered-same st present (repeated there p) = refl

  Launching-same :
      {r : Result (Unit {0}) × World}
      → count_guid m.analysis_guid w ≢ 0
      → Launching v m w r
      → r.1.analyses ≡ w.analyses
  Launching-same present (rejected e) = refl
  Launching-same present (entered e st f done) = Entered-same st present done
  Launching-same present (sent st repo token f g done) = Entered-same st present done

module _ (v v' : Env) (m : LaunchMessage) (w : World) where
  -- Once a launch of a message whose GUID is not empty has succeeded, a later delivery of the
  -- message, with whatever outcome, creates no further analysis. A message without a GUID is left
  -- out, since each of its deliveries draws a new one.
  pub run_creates_analysis_once :
      {w₁ : World}
      → m.analysis_guid ≢ ""
      → run v m w ≡ (ok tt, w₁)
      → (count_guid m.analysis_guid w₁ ≢ 0) × ((run v' m w₁).1.analyses ≡ w₁.analyses)
  run_creates_analysis_once {w₁} n h =
      let launching = subst (Launching v m w) h (run-Launching v m w n) in
      let present = Launching-present v m w refl launching in
      (present, Launching-same v' m w₁ present (run-Launching v' m w₁ n))
