-- ===== src/PrAnalyses/Requests.antt =====
-- What an update of an analysis has done, and what is read afterwards.
use golangci_api.Base.{
  ℕ, ◌≡◌, ◌≢◌, refl, sym, ◌∙◌, ap, String, true, List, Option, ==-self, ==_iff, &&-left, &&-right,
  if◌then◌else◌,
}
use golangci_api.Errors.{Result, ok, err, wrapped, >>=-eq-ok, wrapped-eq-ok, ok-injective}
use golangci_api.Sql.{
  row_at, first_where, update_where, first-eq-ok, updates-eq-ok, first_where-update_where, map_row,
  first_where-holds, row_at-update_where_ne,
}
use golangci_api.Models.PullRequestAnalysis.{PullRequestAnalysis, key, is_live, with_id, with_guid}
use golangci_api.Models.Repo as RepoModel
use golangci_api.PrAnalyses.{
  State, result_or_empty, Env, Tables, set_state, stored, update_found,
  update_analysis_state_by_analysis_guid, get_analysis_state_by_analysis_guid, state_from_analysis,
}

module _ (v : Env) (guid : String) (t : Tables) (status : String) (issues : ℕ)
    (result : Option String) where
  -- What a reader of the analysis is told after the update.
  abbrev pub Reads : Tables → Type 0
  Reads t' =
      (st : State)
      → get_analysis_state_by_analysis_guid v guid t' ≡ ok st
      → (st.status ≡ status)
        × (st.reported_issues_count ≡ issues)
        × (st.result_json ≡ result_or_empty result)

  abbrev pub Updated : Result (Unit {0}) × Tables → Type 0
  Updated (ok _, t') =
      (a : PullRequestAnalysis) × (first_where (with_guid guid) t.analyses ≡ ok a)
      × (t'.repos ≡ t.repos)
      × (first_where (with_guid guid) t'.analyses ≡ ok (set_state status issues result a))
      × ((j : ℕ) → j ≢ a.id → row_at key j t'.analyses ≡ row_at key j t.analyses)
      × Reads t'
  Updated (err e, t') = t' ≡ t

  found-after :
      (a : PullRequestAnalysis)
      → first_where (with_guid guid) t.analyses ≡ ok a
      → first_where
          (with_guid guid)
          (update_where (with_id a.id) (set_state status issues result) t.analyses)
        ≡ ok (set_state status issues result a)
  found-after a f =
      let live : is_live a ≡ true =
        &&-right _ _ (first_where-holds (with_guid guid) t.analyses f) in
      first_where-update_where (with_guid guid) (with_id a.id) (set_state status issues result)
        t.analyses (λ r. refl)
      ∙ ap (map_row (λ r. if with_id a.id r then set_state status issues result r else r)) f
      ∙ rw (==-self a.id, live) refl

  reads :
      (t' : Tables) (a : PullRequestAnalysis)
      → first_where (with_guid guid) t'.analyses ≡ ok (set_state status issues result a)
      → Reads t'
  reads t' a found st h =
      let (a', e, n) = >>=-eq-ok (wrapped (v.analysis_db.first (with_guid guid) t'.analyses)) _ h in
      let (r, _, m) =
        >>=-eq-ok (wrapped (v.repo_db.first (RepoModel.with_id a'.repo_id) t'.repos)) _ n in
      let same : set_state status issues result a ≡ a' =
        ok-injective (sym found ∙ first-eq-ok v.analysis_db _ t'.analyses (wrapped-eq-ok _ e)) in
      let st_is : state_from_analysis (set_state status issues result a) r.full_name ≡ st =
        ap (λ x. state_from_analysis x r.full_name) same ∙ ok-injective m in
      (
        sym (ap (λ x. x.status) st_is),
        sym (ap (λ x. x.reported_issues_count) st_is),
        sym (ap (λ x. x.result_json) st_is),
      )

  stored-Updated :
      (a : PullRequestAnalysis) (u : Result (ℕ × List PullRequestAnalysis))
      → first_where (with_guid guid) t.analyses ≡ ok a
      → v.analysis_db.updates (with_id a.id) (set_state status issues result) t.analyses ≡ u
      → Updated (stored v guid t u)
  stored-Updated a (err e) f q = refl
  stored-Updated a (ok (n, rows)) f q =
      let (_, same) =
        updates-eq-ok v.analysis_db (with_id a.id) (set_state status issues result) t.analyses q in
      let found : first_where (with_guid guid) rows ≡ ok (set_state status issues result a) =
        rw same (found-after a f) in
      (
        a,
        f,
        refl,
        found,
        λ j n. rw same (
            row_at-update_where_ne key (with_id a.id) (set_state status issues result) a.id j
              t.analyses (λ r. refl) (λ r h. (==_iff r.id a.id).0 (&&-left _ _ h)) n),
        reads (record t { analyses = rows }) a found,
      )

  update_found-Updated :
      (r : Result PullRequestAnalysis)
      → v.analysis_db.first (with_guid guid) t.analyses ≡ r
      → Updated (update_found v guid t status issues result r)
  update_found-Updated (err e) q = refl
  update_found-Updated (ok a) q =
      stored-Updated a
        (v.analysis_db.updates (with_id a.id) (set_state status issues result) t.analyses)
        (first-eq-ok v.analysis_db (with_guid guid) t.analyses q) refl

  -- An update that is accepted has changed the status, the number of issues and the result of the
  -- first analysis with that GUID, a missing result to "{}", and whoever reads the analysis with
  -- the GUID afterwards and gets an answer is told these three; the rows of other keys and the
  -- repositories are as before. An update that fails changes nothing.
  pub update_analysis_state_by_analysis_guid-Updated :
      Updated (update_analysis_state_by_analysis_guid v guid t status issues result)
  unfolding update_analysis_state_by_analysis_guid
  update_analysis_state_by_analysis_guid-Updated =
      update_found-Updated (v.analysis_db.first (with_guid guid) t.analyses) refl
