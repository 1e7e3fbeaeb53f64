-- ===== src/BuildAgent/Orchestrator.antt =====
-- pkg/buildagent/containers/orchestrator.go: starting a container, stopping it, and passing the
-- commands of a build on to it. The Docker commands and the HTTP client are parameters.
use golangci_api.Base.{
  ℕ, zero, suc, ◌+◌, ◌-◌, ◌%◌, String, Bool, true, false, ◌||◌, List, [], ◌∷◌, ◌++◌, Option, none,
  some, ltb, ◌==◌, str_eq, if◌then◌else◌,
}
use golangci_api.Errors.{Error, Result, ok, err, wrap, wrapped, message, ◌>>◌, guard}
use golangci_api.BuildAgent.Runner.{HttpRequest, Request, Response}

abbrev pub min_docker_port : ℕ
min_docker_port = 7001

abbrev pub max_docker_port : ℕ
max_docker_port = 8000

pub record ContainerId : Type 0 where
  pub id : String
  pub port : ℕ
  pub build_token : String

pub data DockerCall : Type 0 where
  pull : DockerCall
  run_on : ℕ → String → DockerCall  -- docker run, with the port that is mapped and `-e TOKEN=…`
  kill : String → DockerCall

-- `rand i` is the random number of attempt `i`; `docker_run` and `docker_kill` answer that attempt,
-- and `timeouted i` is whether the deadline has passed when its error is looked at.
pub record Env : Type 0 where
  pub token : String
  pub rand : ℕ → ℕ
  pub docker_run : ℕ → ℕ → String → Result String
  pub docker_kill : ℕ → String → Result (Unit {0})
  pub timeouted : ℕ → Bool
  pub trim_space : String → String
  pub new_uuid : String
  pub post : ℕ → String → Request → Result Response

-- genRandomDockerPort
abbrev pub gen_random_docker_port : ℕ → ℕ
gen_random_docker_port p = min_docker_port + p % (max_docker_port - min_docker_port + 1)

abbrev pub attempts_n : ℕ
attempts_n = 3

-- `none` beside no error is the pair of nils after the loop.
module _ (v : Env) where
  abbrev pub container : String → ℕ → String → ContainerId
  container out port token = record { id = v.trim_space out; port = port; build_token = token }

  -- what is done with an error of attempt `i`
  abbrev pub give_up : Error → Bool → Bool → Option Error
  give_up e true last = some (message "timeouted")
  give_up e false true = some (wrap e)
  give_up e false false = none

  abbrev pub next_attempt :
      {A : Type 0}
      → Option Error
      → Result (Option A) × List DockerCall
      → List DockerCall
      → Result (Option A) × List DockerCall
  next_attempt (some e) next w = (err e, w)
  next_attempt none next w = next

  abbrev pub setup_attempt :
      ℕ
      → String
      → ℕ
      → Result String
      → (List DockerCall → Result (Option ContainerId) × List DockerCall)
      → List DockerCall
      → Result (Option ContainerId) × List DockerCall
  setup_attempt i token port (ok out) next w = (ok (some (container out port token)), w)
  setup_attempt i token port (err e) next w =
      next_attempt (give_up e (v.timeouted i) (i == attempts_n - 1)) (next w) w

  -- the loop of setupContainer from attempt `i` on, with `left` attempts to go
  abbrev pub setup_loop :
      ℕ → ℕ → String → List DockerCall → Result (Option ContainerId) × List DockerCall
  setup_loop zero i token w = (ok none, w)
  setup_loop (suc left) i token w =
      let port = gen_random_docker_port (v.rand i) in
      setup_attempt i token port (v.docker_run i port token) (setup_loop left (suc i) token)
        (w ++ run_on port token ∷ [])

  -- setupContainer; an error of `docker pull` is only logged
  unfoldable pub setup_container : List DockerCall → Result (Option ContainerId) × List DockerCall
  setup_container w = setup_loop attempts_n 0 v.new_uuid (w ++ pull ∷ [])

  abbrev pub kill_attempt :
      ℕ
      → Result (Unit {0})
      → (List DockerCall → Result (Option (Unit {0})) × List DockerCall)
      → List DockerCall
      → Result (Option (Unit {0})) × List DockerCall
  kill_attempt i (ok t) next w = (ok (some tt), w)
  kill_attempt i (err e) next w =
      next_attempt (give_up e (v.timeouted i) (i == attempts_n - 1)) (next w) w

  abbrev pub kill_loop :
      ℕ → ℕ → String → List DockerCall → Result (Option (Unit {0})) × List DockerCall
  kill_loop zero i id w = (ok none, w)
  kill_loop (suc left) i id w =
      kill_attempt i (v.docker_kill i id) (kill_loop left (suc i) id) (w ++ kill id ∷ [])

  -- shutdownContainer
  unfoldable pub shutdown_container :
      String → List DockerCall → Result (Option (Unit {0})) × List DockerCall
  shutdown_container id w = kill_loop attempts_n 0 id w

  -- runBuildCommand
  abbrev pub run_build_command : ContainerId → Request → Result Response
  run_build_command c r =
      if ltb c.port min_docker_port || ltb max_docker_port c.port
      then err (message "invalid port")
      else wrapped (v.post c.port c.build_token r)

  abbrev pub has_body : Option String → Bool
  has_body none = false
  has_body (some b) = true

  -- the checks of wrapHTTPHandler before it calls the handler
  abbrev pub check_request : HttpRequest → Result (Unit {0})
  check_request h =
      guard (str_eq h.method "POST") (message "invalid http method, expected POST")
      >> guard (has_body h.body) (message "no http request body")
      >> guard (str_eq h.token v.token) (message "invalid request token")

  abbrev pub handle_checked :
      {A : Type 0}
      → Result (Unit {0})
      → Result A × List DockerCall
      → List DockerCall
      → Result A × List DockerCall
  handle_checked (err e) called w = (err e, w)
  handle_checked (ok t) called w = called

  -- wrapHTTPHandler, with the outcome of the handler
  abbrev pub wrap_http_handler :
      {A : Type 0}
      → HttpRequest
      → (List DockerCall → Result A × List DockerCall)
      → List DockerCall
      → Result A × List DockerCall
  wrap_http_handler h handler w = handle_checked (check_request h) (handler w) w
