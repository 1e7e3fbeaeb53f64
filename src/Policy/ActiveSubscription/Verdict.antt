-- ===== src/Policy/ActiveSubscription/Verdict.antt =====
-- The verdicts of the two checks, against what the tables, the provider and the settings hold.
use mathlib.Core.Option.{some-injective}
use golangci_api.Base.{
  subst, ℕ, ◌≡◌, ◌↔◌, ◌⊎◌, inl, inr, refl, ap, ◌∙◌, Bool, true, false, List, none, some, take,
  Bool-cases,
}
use golangci_api.Base.Int.{ℤ, pos, negsuc, is_zero}
use golangci_api.Errors.{Result, ok, err, no_active_subscription, ok-injective}
use golangci_api.Sql.{first_where, first-eq-ok}
use golangci_api.Models.Org.{Org, OrgSeat}
use golangci_api.Models.OrgSub.{OrgSub, is_active}
use golangci_api.Policy.ActiveSubscription.{
  Env, ProviderRepo, PullRequestEvent, Commit, of_repo, of_org, accept_existing, with_sub, with_org,
  check_commits, check_existing_org_subscription, only_error, with_settings, with_commits,
  with_active_sub, get_active_sub, check_for_provider_repo, check_for_provider_pull_request_event,
}
use golangci_api.Policy.ActiveSubscription.Seats.{
  Covered, build_paid_seats-pos, check_commits_sound, check_commits_complete,
}

-- The organization of a repository and its subscription, which is settled and has seats.
abbrev pub Subscribed : Env → ProviderRepo → Org → OrgSub → Type 0
Subscribed v pr org sub =
    (first_where (of_repo v.provider_name pr) v.orgs ≡ ok org)
    × (first_where (of_org org.id) v.subs ≡ ok sub)
    × (is_active sub ≡ true)
    × (is_zero sub.seats_count ≡ false)

-- The database answers the queries.
abbrev pub Reads : Env → Type 0
Reads v =
    ((p : Org → Bool) → v.org_db.first p v.orgs ≡ first_where p v.orgs)
    × ((p : OrgSub → Bool) → v.sub_db.first p v.subs ≡ first_where p v.subs)

accept_existing_sound :
    (r : Result OrgSub) {sub : OrgSub}
    → accept_existing r ≡ ok sub
    → (r ≡ ok sub) × (is_active sub ≡ true) × (is_zero sub.seats_count ≡ false)
accept_existing_sound (err e) h = cc
accept_existing_sound (ok s) {sub} h = elim (Bool-cases (is_active s)) [
  | inr f ↦ let no : err no_active_subscription ≡ ok sub = rw f at h in cc
  | inl t ↦ elim (Bool-cases (is_zero s.seats_count)) [
    | inl z ↦ let no : err no_active_subscription ≡ ok sub = rw (t, z) at h in cc
    | inr z ↦
        let same : s ≡ sub = ok-injective (rw (t, z) at h) in
        (
          ap ok same,
          subst (λ x. is_active x ≡ true) same t,
          subst (λ x. is_zero x.seats_count ≡ false) same z,
        )
  ]
]

with_sub_sound :
    (o : Org) (r : Result OrgSub) {org : Org} {sub : OrgSub}
    → with_sub o r ≡ ok (org, sub)
    → (o ≡ org) × (r ≡ ok sub)
with_sub_sound o (err e) h = cc
with_sub_sound o (ok s) h = let same = ok-injective h in (ap (λ p. p.0) same, ap (λ p. ok p.1) same)

only_error-eq-ok :
    (r : Result (Org × OrgSub))
    → only_error r ≡ ok tt
    → (org : Org) × (sub : OrgSub) × (r ≡ ok (org, sub))
only_error-eq-ok (err e) h = cc
only_error-eq-ok (ok (org, sub)) h = (org, sub, refl)

module _ (v : Env) (pr : ProviderRepo) where
  with_org_sound :
      (r : Result Org) {org : Org} {sub : OrgSub}
      → v.org_db.first (of_repo v.provider_name pr) v.orgs ≡ r
      → with_org v r ≡ ok (org, sub)
      → Subscribed v pr org sub
  with_org_sound (err e) q h = cc
  with_org_sound (ok o) {org} {sub} q h =
      let (same, existing) = with_sub_sound o (check_existing_org_subscription v o) h in
      let (found, active, seats) =
        accept_existing_sound (v.sub_db.first (of_org o.id) v.subs) existing in
      (
        first-eq-ok v.org_db (of_repo v.provider_name pr) v.orgs (q ∙ ap ok same),
        subst (λ x. first_where (of_org x.id) v.subs ≡ ok sub) same
            (first-eq-ok v.sub_db (of_org o.id) v.subs found),
        active,
        seats,
      )

  pub get_active_sub_sound :
      {org : Org} {sub : OrgSub} → get_active_sub v pr ≡ ok (org, sub) → Subscribed v pr org sub
  unfolding get_active_sub
  get_active_sub_sound h =
      with_org_sound (v.org_db.first (of_repo v.provider_name pr) v.orgs) refl h

  pub get_active_sub_complete :
      Reads v
      → (org : Org) (sub : OrgSub) → Subscribed v pr org sub
      → get_active_sub v pr ≡ ok (org, sub)
  unfolding get_active_sub
  get_active_sub_complete (reads_orgs, reads_subs) org sub (o, f, a, z) =
      rw (get_active_sub, reads_orgs (of_repo v.provider_name pr))
        (rw o (rw (reads_subs (of_org org.id)) (rw f (rw a (rw z refl)))))

  -- With the check switched on by the configuration, a private repository may be connected exactly
  -- if its organization has a subscription that is settled and has seats; switched off, always. The
  -- database answers the queries.
  pub check_for_provider_repo_iff :
      Reads v
      → (check_for_provider_repo v pr ≡ ok tt) ↔ (
          (v.need_check_active_subscriptions ≡ false)
          ⊎ ((org : Org) × (sub : OrgSub) × Subscribed v pr org sub))
  unfolding check_for_provider_repo
  check_for_provider_repo_iff reads = elim (Bool-cases v.need_check_active_subscriptions) [
    | inr f ↦ (λ h. inl f, λ s. rw (check_for_provider_repo, f) refl)
    | inl t ↦ (
      λ h.
          let (org, sub, e) =
            only_error-eq-ok (get_active_sub v pr) (rw (check_for_provider_repo, t) at h) in
          inr (org, sub, get_active_sub_sound e),
      λ s. elim s [
        | inl f ↦ cc
        | inr (org, sub, x) ↦
            rw (check_for_provider_repo, t) (rw (get_active_sub_complete reads org sub x) refl)
      ],
    )
  ]

-- A pull request is paid for.
abbrev pub Paid : Env → PullRequestEvent → Type 0
Paid v ev =
    (org : Org) × (sub : OrgSub) × (commits : List Commit) × (seats : List OrgSeat) × (n : ℕ)
    × Subscribed v ev.repo org sub
    × (v.list_pull_request_commits ev.repo ev.pull_request_number ≡ ok commits)
    × (v.unmarshal_settings org ≡ ok seats)
    × (sub.seats_count ≡ pos n)
    × Covered v commits (take n seats)

module _ (v : Env) where
  with_settings_sound :
      (sub : OrgSub) (commits : List Commit) (r : Result (List OrgSeat))
      → with_settings v sub commits r ≡ some (ok tt)
      → (seats : List OrgSeat) × (n : ℕ) × (r ≡ ok seats)
        × (sub.seats_count ≡ pos n)
        × Covered v commits (take n seats)
  with_settings_sound sub commits (err e) h = cc
  with_settings_sound sub commits (ok seats) h = go sub.seats_count refl
    where
      go :
          (c : ℤ)
          → sub.seats_count ≡ c
          → (seats' : List OrgSeat) × (n : ℕ) × (ok seats ≡ ok seats')
            × (sub.seats_count ≡ pos n)
            × Covered v commits (take n seats')
      go (negsuc n) e = let no : none ≡ some (ok tt) = rw e at h in cc
      go (pos n) e =
          let paid : check_commits v commits (take n seats) ≡ ok tt =
            some-injective _ _ (rw (build_paid_seats-pos n seats sub e) at h) in
          (seats, n, refl, e, check_commits_sound v commits (take n seats) paid)

  with_commits_sound :
      (org : Org) (sub : OrgSub) (r : Result (List Commit))
      → with_commits v org sub r ≡ some (ok tt)
      → (commits : List Commit) × (r ≡ ok commits)
        × (with_settings v sub commits (v.unmarshal_settings org) ≡ some (ok tt))
  with_commits_sound org sub (err e) h = cc
  with_commits_sound org sub (ok commits) h = (commits, refl, h)

  with_active_sub_sound :
      (ev : PullRequestEvent) (r : Result (Org × OrgSub))
      → get_active_sub v ev.repo ≡ r
      → with_active_sub v ev r ≡ some (ok tt)
      → Paid v ev
  with_active_sub_sound ev (err e) q h = cc
  with_active_sub_sound ev (ok (org, sub)) q h =
      let (commits, listed, h₁) =
        with_commits_sound org sub (v.list_pull_request_commits ev.repo ev.pull_request_number) h in
      let (seats, n, decoded, count, covered) =
        with_settings_sound sub commits (v.unmarshal_settings org) h₁ in
      (
        org,
        sub,
        commits,
        seats,
        n,
        get_active_sub_sound v ev.repo q,
        listed,
        decoded,
        count,
        covered,
      )

  -- A pull request may be analyzed exactly if its organization has a subscription that is settled
  -- and has seats, and the author or the committer of one of its commits is a service or has one of
  -- the first seats of the organization, as many as the subscription pays for. The database answers
  -- the queries.
  pub check_for_provider_pull_request_event_iff :
      Reads v
      → (ev : PullRequestEvent)
      → (check_for_provider_pull_request_event v ev ≡ some (ok tt)) ↔ Paid v ev
  unfolding check_for_provider_pull_request_event
  check_for_provider_pull_request_event_iff reads ev = (
    λ h. with_active_sub_sound ev (get_active_sub v ev.repo) refl h,
    λ (org, sub, commits, seats, n, subscribed, listed, decoded, count, (c, m, why)).
        rw
          (
            check_for_provider_pull_request_event,
            get_active_sub_complete v ev.repo reads org sub subscribed,
          )
          (rw listed (
            rw decoded (
              rw (build_paid_seats-pos n seats sub count)
                (ap some (check_commits_complete v commits (take n seats) c m why))))),
  )
