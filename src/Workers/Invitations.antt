-- ===== src/Workers/Invitations.antt =====
-- pkg/api/workers/primaryqueue/invitations/acceptor.go: the reviewer's account accepts the
-- invitation to a repository. The VCS provider is a parameter with a state.
mod Examples
use golangci_api.Base.{
  ℕ, String, Bool, ◌≡◌, refl, ◌⊎◌, inl, inr, true, false, Bool-cases, str_eq, if◌then◌else◌,
}
use golangci_api.Errors.{Error, Result, ok, err, wrap, wrapped, message}
use golangci_api.Policy.Organization.{is_cause_not_found}

pub record AcceptMessage : Type 0 where
  pub owner : String
  pub repo : String
  pub provider : String
  pub invitation_id : ℕ

-- An invitation that was accepted is not pending any more, and `provider.ErrNotFound` says that
-- there is none; another error tells nothing. Looking up a repository changes nothing.
abbrev pub Accepts : {S : Type 0} → (S → Bool) → Result (Unit {0}) × S → Type 0
Accepts pending (ok _, s) = pending s ≡ false
Accepts pending (err e, s) = (is_cause_not_found e ≡ false) ⊎ (pending s ≡ false)

pub record Env (S : Type 0) : Type 0 where
  pub reviewer_token : String
  pub build_for_token : String → Result (Unit {0})
  pub accept_repo_invitation : ℕ → S → Result (Unit {0}) × S
  pub get_repo_by_name : String → String → S → Result (Unit {0})
  pub pending : ℕ → S → Bool
  pub accept_law : (i : ℕ) (s : S) → Accepts (pending i) (accept_repo_invitation i s)

module _ {S : Type 0} (v : Env S) (m : AcceptMessage) where
  abbrev pub check_access : S → Result (Unit {0}) × S
  check_access s = (wrapped (v.get_repo_by_name m.owner m.repo s), s)

  abbrev pub after_failure : Bool → Error → S → Result (Unit {0}) × S
  after_failure true e s = check_access s
  after_failure false e s = (err (wrap e), s)

  abbrev pub after_accept : Result (Unit {0}) × S → Result (Unit {0}) × S
  after_accept (err e, s) = after_failure (is_cause_not_found e) e s
  after_accept (ok _, s) = check_access s

  abbrev pub with_provider : S → Result (Unit {0}) → Result (Unit {0}) × S
  with_provider s (err e) = (err (wrap e), s)
  with_provider s (ok _) = after_accept (v.accept_repo_invitation m.invitation_id s)

  -- AcceptorConsumer.run
  abbrev pub run : S → Result (Unit {0}) × S
  run s =
      if str_eq v.reviewer_token ""
      then (err (message "GITHUB_REVIEWER_ACCESS_TOKEN wasn't set"), s)
      else with_provider s (v.build_for_token m.provider)

  abbrev pub wrapped_result : Result (Unit {0}) × S → Result (Unit {0}) × S
  wrapped_result (r, s) = (wrapped r, s)

  -- AcceptorConsumer.consumeMessage
  pub consume_message : S → Result (Unit {0}) × S
  consume_message s = wrapped_result (run s)

  -- The invitation is not pending, and the reviewer's account can see the repository.
  abbrev pub Accepted : Result (Unit {0}) × S → Type 0
  Accepted (ok _, s) =
      (v.pending m.invitation_id s ≡ false) × (v.get_repo_by_name m.owner m.repo s ≡ ok tt)
  Accepted (err e, s) = Unit {0}

  checked-Accepted :
      (r : Result (Unit {0})) (s : S)
      → v.get_repo_by_name m.owner m.repo s ≡ r
      → v.pending m.invitation_id s ≡ false
      → Accepted (wrapped (wrapped r), s)
  checked-Accepted (err e) s q p = tt
  checked-Accepted (ok _) s q p = (p, q)

  check_access-Accepted :
      (s : S) → v.pending m.invitation_id s ≡ false → Accepted (wrapped_result (check_access s))
  check_access-Accepted s p = checked-Accepted (v.get_repo_by_name m.owner m.repo s) s refl p

  after_failure-Accepted :
      (b : Bool) (e : Error) (s : S)
      → (b ≡ false) ⊎ (v.pending m.invitation_id s ≡ false)
      → Accepted (wrapped_result (after_failure b e s))
  after_failure-Accepted false e s p = tt
  after_failure-Accepted true e s (inl p) = cc
  after_failure-Accepted true e s (inr p) = check_access-Accepted s p

  after_accept-Accepted :
      (r : Result (Unit {0}) × S)
      → Accepts (v.pending m.invitation_id) r
      → Accepted (wrapped_result (after_accept r))
  after_accept-Accepted (ok _, s) p = check_access-Accepted s p
  after_accept-Accepted (err e, s) p = after_failure-Accepted (is_cause_not_found e) e s p

  with_provider-Accepted :
      (s : S) (r : Result (Unit {0})) → Accepted (wrapped_result (with_provider s r))
  with_provider-Accepted s (err e) = tt
  with_provider-Accepted s (ok _) =
      after_accept-Accepted (v.accept_repo_invitation m.invitation_id s)
        (v.accept_law m.invitation_id s)

  -- When the consumer acknowledges the message, the invitation is not pending, and the reviewer's
  -- account can see the repository.
  pub consume_message-Accepted : (s : S) → Accepted (consume_message s)
  unfolding consume_message
  consume_message-Accepted s = elim (Bool-cases (str_eq v.reviewer_token "")) [
    | inl t ↦ rw t tt
    | inr f ↦ rw f (with_provider-Accepted s (v.build_for_token m.provider))
  ]
