-- ===== src/RepoService/CreationExamples.antt =====
-- Requests to connect a private repository, with a subscription and without one.
use golangci_api.Base.{ℕ, ◌≡◌, refl, List, [], ◌∷◌, true, false, some, none}
use golangci_api.Base.Int.{pos}
use golangci_api.Errors.{Result, ok, err, wrap, db_failure, continue_to}
use golangci_api.Sql.{reliable, row_at}
use golangci_api.Models.Repo.{Repo, key, create_sent_to_queue}
use golangci_api.Models.Org.{Org}
use golangci_api.Policy.ActiveSubscription.{check_for_provider_repo}
use golangci_api.Policy.ActiveSubscription as Policy
use golangci_api.Policy.ActiveSubscription.Examples.{three_seats, tool}
use golangci_api.Policy.Organization.{check_can_modify}
use golangci_api.Policy.Organization.Examples.{env as org_env}
use golangci_api.Subscription.Examples.{acme}
use golangci_api.Experiments.{Config, is_active_for_repo}
use golangci_api.RepoService.{
  Deps, Auth, send_to_create_queue, build_response_repo, set_commit_state,
}
use golangci_api.RepoService.Creation.{BodyRepo, Env, Tables, create, new_repo, new_org}
use golangci_api.RepoService.Created.{Created, create-Created}

-- A database that has room for one row.
abbrev first_id : List Repo → Result ℕ
first_id [] = ok 5
first_id (r ∷ t) = err db_failure

first_id-new : (t : List Repo) {id : ℕ} → first_id t ≡ ok id → row_at key id t ≡ none
first_id-new [] h = refl
first_id-new (r ∷ t) h = cc

abbrev deps : Deps
deps = record {
  repo_db = reliable;
  build_provider = λ a. ok tt;
  is_admin = λ r. ok true;
  put_create = λ i. ok tt;
  put_delete = λ m. ok tt;
}

abbrev everywhere : Config
everywhere = record {
  string_list = λ k. [];
  int_at = λ k. pos 100;
  bool_at = λ k. false;
  to_lower = λ s. s;
  to_upper = λ s. s;
}

abbrev paid_for : List Org → Policy.Env
paid_for orgs = record three_seats { orgs = orgs }

abbrev unpaid : List Org → Policy.Env
unpaid orgs = record three_seats { orgs = orgs; subs = [] }

abbrev env : (List Org → Policy.Env) → Env
env policy = record {
  deps = deps;
  provider_name = "github.com";
  get_repo_by_name = λ o n. ok tool;
  owner_of = λ p. "acme";
  name_of = λ p. "tool";
  org_db = reliable;
  policy = policy;
  org_policy = org_env;
  experiments = everywhere;
  user_email = "ann@acme.com";
  generate_hook_id = ok "h";
  create_org = λ t. ok 3;
  create_repo = first_id;
  create_repo_law = first_id-new;
}

abbrev caller : Auth
caller = record { user_id = 1; provider = "github.com" }

abbrev request : BodyRepo
request = record { provider = "github.com"; owner = "acme"; name = "tool" }

abbrev tables : List Org → Tables
tables orgs = record {
  world = record { rows = []; create_queue = []; delete_queue = [] };
  orgs = orgs;
  cache = none;
}

abbrev queued : Repo
queued = set_commit_state create_sent_to_queue (new_repo (env paid_for) caller tool "h" 5)

connects : create (env paid_for) caller request (tables (acme ∷ [])) ≡ (
  some (ok (build_response_repo queued)),
  record (tables (acme ∷ [])) {
    world = record { rows = queued ∷ []; create_queue = 5 ∷ []; delete_queue = [] };
  },
)
unfolding create check_for_provider_repo send_to_create_queue reliable
connects = refl

redirects :
    (create (env unpaid) caller request (tables (acme ∷ []))).0
    ≡ some (err (wrap (continue_to "/orgs/github.com/acme")))
unfolding create check_for_provider_repo is_active_for_repo reliable
redirects = refl

creates_organization :
    (create (env unpaid) caller request (tables [])).1.orgs
    ≡ new_org (env unpaid) caller tool 3 ∷ []
unfolding create check_for_provider_repo is_active_for_repo check_can_modify reliable
creates_organization = refl

create-Created_example :
    Created
      (env paid_for)
      caller
      request
      (tables (acme ∷ []))
      (create (env paid_for) caller request (tables (acme ∷ [])))
create-Created_example = create-Created (env paid_for) caller request (tables (acme ∷ [])) tt
