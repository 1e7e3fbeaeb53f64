-- ===== src/Policy/ActiveSubscription/Panic.antt =====
-- When the slice expression of `buildPaidSeats` panics.
use golangci_api.Base.{ℕ, ◌≡◌, ◌↔◌, refl, List, none, some}
use golangci_api.Base.Int.{ℤ, pos, negsuc}
use golangci_api.Errors.{Result, ok, err}
use golangci_api.Models.Org.{Org, OrgSeat}
use golangci_api.Models.OrgSub.{OrgSub}
use golangci_api.Policy.ActiveSubscription.{
  Env, PullRequestEvent, Commit, with_settings, with_commits, with_active_sub, get_active_sub,
  check_for_provider_pull_request_event,
}
use golangci_api.Policy.ActiveSubscription.Seats.{build_paid_seats-pos}
use golangci_api.Policy.ActiveSubscription.Verdict.{
  Subscribed, Reads, get_active_sub_sound, get_active_sub_complete,
}

-- The slice expression is reached with a negative bound.
abbrev pub Overdrawn : Env → PullRequestEvent → Type 0
Overdrawn v ev =
    (org : Org) × (sub : OrgSub) × (commits : List Commit) × (seats : List OrgSeat) × (n : ℕ)
    × Subscribed v ev.repo org sub
    × (v.list_pull_request_commits ev.repo ev.pull_request_number ≡ ok commits)
    × (v.unmarshal_settings org ≡ ok seats)
    × (sub.seats_count ≡ negsuc n)

module _ (v : Env) where
  with_settings_panics :
      (sub : OrgSub) (commits : List Commit) (r : Result (List OrgSeat))
      → with_settings v sub commits r ≡ none
      → (seats : List OrgSeat) × (n : ℕ) × (r ≡ ok seats) × (sub.seats_count ≡ negsuc n)
  with_settings_panics sub commits (err e) h = cc
  with_settings_panics sub commits (ok seats) h = go sub.seats_count refl
    where
      go :
          (c : ℤ)
          → sub.seats_count ≡ c
          → (seats' : List OrgSeat) × (n : ℕ) × (ok seats ≡ ok seats')
            × (sub.seats_count ≡ negsuc n)
      go (negsuc n) e = (seats, n, refl, e)
      go (pos n) e = let no : some _ ≡ none = rw (build_paid_seats-pos n seats sub e) at h in cc

  with_commits_panics :
      (org : Org) (sub : OrgSub) (r : Result (List Commit))
      → with_commits v org sub r ≡ none
      → (commits : List Commit) × (r ≡ ok commits)
        × (with_settings v sub commits (v.unmarshal_settings org) ≡ none)
  with_commits_panics org sub (err e) h = cc
  with_commits_panics org sub (ok commits) h = (commits, refl, h)

  with_active_sub_panics :
      (ev : PullRequestEvent) (r : Result (Org × OrgSub))
      → get_active_sub v ev.repo ≡ r
      → with_active_sub v ev r ≡ none
      → Overdrawn v ev
  with_active_sub_panics ev (err e) q h = cc
  with_active_sub_panics ev (ok (org, sub)) q h =
      let (commits, listed, h₁) =
        with_commits_panics org sub (v.list_pull_request_commits ev.repo ev.pull_request_number)
          h in
      let (seats, n, decoded, count) =
        with_settings_panics sub commits (v.unmarshal_settings org) h₁ in
      (org, sub, commits, seats, n, get_active_sub_sound v ev.repo q, listed, decoded, count)

  -- The check of a pull request panics exactly if the subscription that it finds has a negative
  -- number of seats, and the commits and the settings could be read. The database answers the
  -- queries.
  pub check_for_provider_pull_request_event_panics :
      Reads v
      → (ev : PullRequestEvent)
      → (check_for_provider_pull_request_event v ev ≡ none) ↔ Overdrawn v ev
  unfolding check_for_provider_pull_request_event
  check_for_provider_pull_request_event_panics reads ev = (
    λ h. with_active_sub_panics ev (get_active_sub v ev.repo) refl h,
    λ (org, sub, commits, seats, n, subscribed, listed, decoded, count).
        rw
          (
            check_for_provider_pull_request_event,
            get_active_sub_complete v ev.repo reads org sub subscribed,
          )
          (rw listed (rw decoded (rw count refl))),
  )
