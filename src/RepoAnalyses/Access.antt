-- ===== src/RepoAnalyses/Access.antt =====
-- What a request for the report of a repository is answered.
use golangci_api.Base.{
  ◌≡◌, refl, sym, ◌∙◌, ap, ◌⊎◌, inl, inr, String, Bool, true, false, List, some, Bool-cases,
  if◌then◌else◌,
}
use golangci_api.Errors.{Error, Result, ok, err, record_not_found, is_record_not_found}
use golangci_api.Sql.{Sql, first_where, first-eq-ok}
use golangci_api.Sql.Select.{Selected}
use golangci_api.Models.Repo.{Repo, RepoAnalysisStatus}
use golangci_api.Models.RepoAnalysis.{RepoAnalysis}
use golangci_api.Authorizer.{Session, authorize}
use golangci_api.Policy.RepoRead.{CacheKey, can_read_private_repo}
use golangci_api.Policy.RepoRead.Private.{MayReadPrivate, can_read_private_repo_iff}
use golangci_api.RepoAnalyses.{
  Status, Env, Tables, not_connected, preparing, empty, named, of_repo, of_status, by_id, built,
  status_found, report, if_permitted, checked, repo_found, get_status,
}
use golangci_api.RepoAnalyses.Rendered.{report_of, build_status-report}

is_record_not_found-only : (e : Error) → is_record_not_found e ≡ true → e ≡ record_not_found
is_record_not_found-only record_not_found h = refl
is_record_not_found-only _ h = cc

-- A lookup that says that there is no row is right.
missing :
    {R : Type 0} (db : Sql R) (p : R → Bool) (t : List R) {e : Error}
    → db.first p t ≡ err e
    → is_record_not_found e ≡ true
    → first_where p t ≡ err record_not_found
missing db p t {e} h n = elim (db.first_law p t) [
  | inl q ↦ sym q ∙ h ∙ ap err (is_record_not_found-only e n)
  | inr (x, q, f) ↦ cc
]

module _ (v : Env) (s : Session) (name lower_name guid : String) (t : Tables) where
  -- The report of a repository: no status yet, an empty repository, or its newest analyses.
  abbrev pub ReportOf : Repo → Status → Type 0
  ReportOf r x =
      ((first_where (of_repo r.id) t.statuses ≡ err record_not_found)
        × (x ≡ preparing r.display_full_name))
      ⊎ ((st : RepoAnalysisStatus) × (first_where (of_repo r.id) t.statuses ≡ ok st)
          × (((st.is_empty ≡ true) × (x ≡ empty r.display_full_name))
              ⊎ ((st.is_empty ≡ false)
                  × ((l : List RepoAnalysis) × Selected (of_status st.id guid) by_id (some 2)
                        t.analyses l
                      × (x ≡ report_of l r.display_full_name st.has_pending_changes)))))

  abbrev pub Reported : List CacheKey → Result Status × List CacheKey → Type 0
  Reported c (err e, c') = Unit {0}
  Reported c (ok x, c') =
      ((first_where (named lower_name) t.repos ≡ err record_not_found) × (x ≡ not_connected name))
      ⊎ ((r : Repo) × (first_where (named lower_name) t.repos ≡ ok r)
          × ((r.is_private ≡ false)
              ⊎ MayReadPrivate v.cache v.answers v.admin_login (v.universal r)
                  (authorize v.authorizer s) c)
          × ReportOf r x)

  abbrev pub ReportIs : Repo → Result Status → Type 0
  ReportIs r (err e) = Unit {0}
  ReportIs r (ok x) = ReportOf r x

  built-ReportIs :
      (r : Repo) (st : RepoAnalysisStatus) (l : Result (List RepoAnalysis))
      → first_where (of_repo r.id) t.statuses ≡ ok st
      → st.is_empty ≡ false
      → v.analysis_select.select (of_status st.id guid) by_id (some 2) t.analyses ≡ l
      → ReportIs r (built v s name lower_name guid t st r.display_full_name l)
  built-ReportIs r st (err e) f n q = tt
  built-ReportIs r st (ok l) f n q =
      let sel = v.analysis_select.select_law _ _ _ _ q in
      inr (
        st,
        f,
        inr (n, (l, sel, build_status-report l r.display_full_name st.has_pending_changes sel.2)),
      )

  not_empty-ReportIs :
      (r : Repo) (st : RepoAnalysisStatus) (b : Bool)
      → first_where (of_repo r.id) t.statuses ≡ ok st
      → st.is_empty ≡ b
      → ReportIs r (
          if b
          then ok (empty r.display_full_name)
          else built v s name lower_name guid t st r.display_full_name
              (v.analysis_select.select (of_status st.id guid) by_id (some 2) t.analyses))
  not_empty-ReportIs r st true f q = inr (st, f, inl (q, refl))
  not_empty-ReportIs r st false f q = built-ReportIs r st _ f q refl

  status_found-ReportIs :
      (r : Repo) (st : Result RepoAnalysisStatus)
      → v.status_db.first (of_repo r.id) t.statuses ≡ st
      → ReportIs r (status_found v s name lower_name guid t r.display_full_name st)
  status_found-ReportIs r (err e) q = elim (Bool-cases (is_record_not_found e)) [
    | inl n ↦ rw n (inl (missing v.status_db _ _ q n, refl))
    | inr n ↦ rw n tt
  ]
  status_found-ReportIs r (ok st) q =
      not_empty-ReportIs r st st.is_empty (first-eq-ok v.status_db _ _ q) refl

  report-Reported :
      (c c' : List CacheKey) (r : Repo) (b : Result Status)
      → first_where (named lower_name) t.repos ≡ ok r
      → ((r.is_private ≡ false)
          ⊎ MayReadPrivate v.cache v.answers v.admin_login
              (v.universal r)
              (authorize v.authorizer s)
              c)
      → ReportIs r b
      → Reported c (b, c')
  report-Reported c c' r (err e) f g x = tt
  report-Reported c c' r (ok st) f g x = inr (r, f, g, x)

  report-ReportIs : (r : Repo) → ReportIs r (report v s name lower_name guid t r)
  report-ReportIs r = status_found-ReportIs r (v.status_db.first (of_repo r.id) t.statuses) refl

  if_permitted-Reported :
      (c : List CacheKey) (r : Repo) (y : Result (Unit {0}) × List CacheKey)
      → first_where (named lower_name) t.repos ≡ ok r
      → (y.0 ≡ ok tt
          → MayReadPrivate v.cache v.answers v.admin_login
              (v.universal r)
              (authorize v.authorizer s)
              c)
      → Reported c (if_permitted v s name lower_name guid t r y)
  if_permitted-Reported c r (err e, c') f g = tt
  if_permitted-Reported c r (ok _, c') f g =
      report-Reported c c' r _ f (inr (g refl)) (report-ReportIs r)

  checked-Reported :
      (c : List CacheKey) (r : Repo) (b : Bool)
      → first_where (named lower_name) t.repos ≡ ok r
      → r.is_private ≡ b
      → Reported c (checked v s name lower_name guid t b r c)
  checked-Reported c r false f q = report-Reported c c r _ f (inl q) (report-ReportIs r)
  checked-Reported c r true f q =
      if_permitted-Reported c r
        (can_read_private_repo v.cache v.answers v.admin_login (v.universal r)
          (authorize v.authorizer s) c)
        f
        (can_read_private_repo_iff v.cache v.answers v.admin_login (v.universal r)
          (authorize v.authorizer s) c).0

  repo_found-Reported :
      (c : List CacheKey) (r : Result Repo)
      → v.repo_db.first (named lower_name) t.repos ≡ r
      → Reported c (repo_found v s name lower_name guid t r c)
  repo_found-Reported c (err e) q = elim (Bool-cases (is_record_not_found e)) [
    | inl n ↦ rw n (inl (missing v.repo_db _ _ q n, refl))
    | inr n ↦ rw n tt
  ]
  repo_found-Reported c (ok r) q =
      checked-Reported c r r.is_private (first-eq-ok v.repo_db _ _ q) refl

  -- A report that is answered without an error says that the repository is not connected, and no
  -- live repository has the name; or it is of the live repository of that name, which is public or
  -- which the caller may read by the policy of private repositories. It says that it is being
  -- prepared if no status row exists, that the repository is empty if the status row says so, and
  -- else it is made of the newest two analyses of that status row, of the GUID that is asked for if
  -- one is: it shows the newest complete one of these, or the newest while none of them is complete, beside the status of a newer one that runs, or "planned"
  -- if the newest is complete and changes are pending; with no analysis it is being prepared.
  pub get_status-Reported :
      (c : List CacheKey) → Reported c (get_status v s name lower_name guid t c)
  unfolding get_status
  get_status-Reported c = repo_found-Reported c (v.repo_db.first (named lower_name) t.repos) refl
