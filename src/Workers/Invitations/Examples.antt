-- ===== src/Workers/Invitations/Examples.antt =====
-- An invitation that was accepted before.
use golangci_api.Base.{Bool, false, ◌≡◌, refl, inr}
use golangci_api.Errors.{ok, err, provider_not_found}
use golangci_api.Workers.Invitations.{Env, AcceptMessage, consume_message}

abbrev env : Env Bool
env = record {
  reviewer_token = "t";
  build_for_token = λ p. ok tt;
  accept_repo_invitation = λ i s. (err provider_not_found, false);
  get_repo_by_name = λ o n s. ok tt;
  pending = λ i s. s;
  accept_law = λ i s. inr refl;
}

abbrev invitation : AcceptMessage
invitation = record { owner = "acme"; repo = "api"; provider = "github.com"; invitation_id = 7 }

accepted_before : (consume_message env invitation false).0 ≡ ok tt
unfolding consume_message
accepted_before = refl
