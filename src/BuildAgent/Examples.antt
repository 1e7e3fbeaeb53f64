-- ===== src/BuildAgent/Examples.antt =====
-- A container that starts at the second attempt, and a request to run nothing.
use golangci_api.Base.{ℕ, ◌≡◌, refl, [], ◌∷◌, none, some, String, false, ◌==◌, if◌then◌else◌}
use golangci_api.Errors.{Result, ok, err, message}
use golangci_api.BuildAgent.Runner.{HttpRequest, Request, Env, panicked, no_output, handle_request}
use golangci_api.BuildAgent.Guarded.{Handled, handle_request-Handled}
use golangci_api.BuildAgent.Orchestrator.{
  ContainerId, DockerCall, pull, run_on, setup_container, shutdown_container,
}
use golangci_api.BuildAgent.Orchestrator as Orchestrator
use golangci_api.BuildAgent.Containers.{Ready, setup_container-Ready}

abbrev nothing : Request
nothing = record { timeout_ms = 1; work_dir = ""; env = []; kind = "run"; args = [] }

abbrev agent : Env
agent = record {
  token = "t";
  decode = λ text. ok nothing;
  run = λ r. (no_output, none);
  write_file = λ f c. ok tt;
  join = λ d f. f;
}

abbrev post : HttpRequest
post = record { method = "POST"; body = some "{}"; token = "t" }

nothing_panics : handle_request agent post [] ≡ (panicked, [])
unfolding handle_request
nothing_panics = refl

handle_request-Handled_example : Handled agent post [] (handle_request agent post [])
handle_request-Handled_example = handle_request-Handled agent post []

abbrev docker_run : ℕ → ℕ → String → Result String
docker_run i port token = if i == 0 then err (message "port is in use") else ok "c1"

abbrev docker : Orchestrator.Env
docker = record {
  token = "t";
  rand = λ i. i;
  docker_run = docker_run;
  docker_kill = λ i id. ok tt;
  timeouted = λ i. false;
  trim_space = λ s. s;
  new_uuid = "u";
  post = λ p t r. err (message "no agent");
}

abbrev started : ContainerId
started = record { id = "c1"; port = 7002; build_token = "u" }

starts :
    setup_container docker [] ≡ (ok (some started), pull ∷ run_on 7001 "u" ∷ run_on 7002 "u" ∷ [])
unfolding setup_container
starts = refl

stops : (shutdown_container docker "c1" []).0 ≡ ok (some tt)
unfolding shutdown_container
stops = refl

setup_container-Ready_example : Ready docker [] (setup_container docker [])
setup_container-Ready_example = setup_container-Ready docker []
