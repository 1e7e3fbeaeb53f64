-- ===== src/BuildAgent/Runner.antt =====
-- pkg/buildagent/build/runner.go: an HTTP request to run a command or to write a file. The commands
-- and the writes that are tried are kept in their order.
use golangci_api.Base.{String, ℕ, List, [], ◌∷◌, ◌++◌, Option, none, some, str_eq, if◌then◌else◌}
use golangci_api.Errors.{Error, Result, ok, err, wrap, message, ◌>>◌, guard}

pub record HttpRequest : Type 0 where
  pub method : String
  pub body : Option String
  pub token : String

pub record Request : Type 0 where
  pub timeout_ms : ℕ
  pub work_dir : String
  pub env : List String
  pub kind : String
  pub args : List String

pub record RequestResult : Type 0 where
  pub std_out : String
  pub std_err : String

-- the errors are their texts, which are left out; `none` is the empty text
pub record Response : Type 0 where
  pub error : Option Error
  pub command_error : Option Error
  pub request_result : RequestResult

pub data Exec : Type 0 where
  ran : List String → List String → String → Exec  -- a command with its additional environment
  wrote : String → String → Exec

-- encoding/json, os/exec, ioutil.WriteFile and filepath.Join
pub record Env : Type 0 where
  pub token : String
  pub decode : String → Result Request
  pub run : Request → RequestResult × Option Error
  pub write_file : String → String → Result (Unit {0})
  pub join : String → String → String

abbrev pub no_output : RequestResult
no_output = record { std_out = ""; std_err = "" }

-- A Go pair of a pointer and an error, both of which may be set or not.
abbrev pub Pair : Type 0
Pair = Option RequestResult × Option Error

-- How a request ends; a panic is recovered by net/http, which closes the connection.
pub data Ended : Type 0 where
  responded : Response → Ended
  panicked : Ended

module _ (v : Env) where
  -- parseRequest
  abbrev pub parse_body : Option String → Result Request
  parse_body none = err (message "no http request body")
  parse_body (some text) = elim (v.decode text) [ err e ↦ err (wrap e) | ok r ↦ ok r ]

  abbrev pub parse_request : HttpRequest → Result Request
  parse_request h =
      guard (str_eq h.method "POST") (message "invalid http method, expected POST")
      >> parse_body h.body

  abbrev pub run_output : RequestResult × Option Error → Pair
  run_output (r, e) = (some r, e)

  -- executeRunRequest, by the arguments
  abbrev pub execute_run_request : Request → List String → List Exec → Pair × List Exec
  execute_run_request r [] w = ((none, some (message "empty args")), w)
  execute_run_request r (a ∷ args) w =
      (run_output (v.run r), w ++ ran (a ∷ args) r.env r.work_dir ∷ [])

  abbrev pub dest_file : Request → String → String
  dest_file r file = if str_eq r.work_dir "" then file else v.join r.work_dir file

  abbrev pub write_output : Result (Unit {0}) → Pair
  write_output (err e) = (none, some (wrap e))
  write_output (ok t) = (some no_output, none)

  -- executeCopyRequest, by the arguments
  abbrev pub execute_copy_request : Request → List String → List Exec → Pair × List Exec
  execute_copy_request r (file ∷ content ∷ []) w = (
    write_output (v.write_file (dest_file r file) content),
    w ++ wrote (dest_file r file) content ∷ [],
  )
  execute_copy_request r args w = ((none, some (message "invalid args count")), w)

  -- executeRequest
  abbrev pub execute_request : Request → List Exec → Pair × List Exec
  execute_request r w =
      if str_eq r.kind "run"
      then execute_run_request r r.args w
      else if str_eq r.kind "copy"
      then execute_copy_request r r.args w
      else ((none, some (message "invalid request kind")), w)

  -- `*res` of no result panics
  abbrev pub respond : Pair × List Exec → Ended × List Exec
  respond ((none, e), w) = (panicked, w)
  respond ((some r, e), w) =
      (responded (record { error = none; command_error = e; request_result = r }), w)

  abbrev pub respond_error : Error → Response
  respond_error e = record { error = some e; command_error = none; request_result = no_output }

  abbrev pub handle_parsed : String → Result Request → List Exec → Ended × List Exec
  handle_parsed token (err e) w = (responded (respond_error e), w)
  handle_parsed token (ok r) w =
      if str_eq token v.token
      then respond (execute_request r w)
      else (responded (respond_error (message "invalid request token")), w)

  -- handleRequest
  unfoldable pub handle_request : HttpRequest → List Exec → Ended × List Exec
  handle_request h w = handle_parsed h.token (parse_request h) w
