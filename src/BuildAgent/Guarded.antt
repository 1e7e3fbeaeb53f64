-- ===== src/BuildAgent/Guarded.antt =====
-- Which requests make the agent run something, and how they end.
use golangci_api.Base.{
  String, ◌≡◌, ◌≢◌, refl, sym, append-nil, ◌⊎◌, inl, inr, true, List, [], ◌∷◌, ◌++◌, Option, none,
  some, Bool-cases, str_eq, eq_iff, if◌then◌else◌,
}
use golangci_api.Errors.{Error, Result, ok, err}
use golangci_api.BuildAgent.Runner.{
  HttpRequest, Request, Exec, ran, wrote, Env, Ended, Response, responded, panicked, parse_request,
  dest_file, execute_run_request, execute_copy_request, execute_request, respond, handle_parsed,
  handle_request, write_output,
}

module _ (v : Env) where
  -- What a request asks to be done, if it is well formed.
  abbrev pub asked_run : Request → List String → Option Exec
  asked_run r [] = none
  asked_run r (a ∷ args) = some (ran (a ∷ args) r.env r.work_dir)

  abbrev pub asked_copy : Request → List String → Option Exec
  asked_copy r (file ∷ content ∷ []) = some (wrote (dest_file v r file) content)
  asked_copy r args = none

  abbrev pub asked : Request → Option Exec
  asked r =
      if str_eq r.kind "run"
      then asked_run r r.args
      else if str_eq r.kind "copy"
      then asked_copy r r.args
      else none

  abbrev pub done : Option Exec → List Exec
  done none = []
  done (some x) = x ∷ []

  abbrev pub Failed : Option Exec → Type 0
  Failed none = Unit {0}
  Failed (some (ran args env dir)) = ⊥
  Failed (some (wrote file content)) = (e : Error) × (v.write_file file content ≡ err e)

  -- The answer to a request that asks for this: what the command has printed and its error, or
  -- no error of a write that has succeeded.
  abbrev pub Answered : Request → Option Exec → Response → Type 0
  Answered r none x = ⊥
  Answered r (some (ran args env dir)) x =
      (x.error ≡ none) × (x.request_result ≡ (v.run r).0) × (x.command_error ≡ (v.run r).1)
  Answered r (some (wrote file content)) x =
      (x.error ≡ none) × (x.command_error ≡ none) × (v.write_file file content ≡ ok tt)

  -- The end of a request that asks for this.
  abbrev pub EndOf : Request → Option Exec → Ended → Type 0
  EndOf r x panicked = Failed x
  EndOf r x (responded a) = Answered r x a

  abbrev pub Executed : Request → List Exec → Option Exec → Ended × List Exec → Type 0
  Executed r w x (e, w') = (w' ≡ w ++ done x) × EndOf r x e

  run-Executed :
      (r : Request) (args : List String) (w : List Exec)
      → Executed r w (asked_run r args) (respond v (execute_run_request v r args w))
  run-Executed r [] w = (sym (append-nil w), tt)
  run-Executed r (a ∷ args) w = (refl, (refl, refl, refl))

  write-EndOf :
      (r : Request) (file content : String) (x : Result (Unit {0})) (w : List Exec)
      → v.write_file file content ≡ x
      → EndOf r (some (wrote file content)) (respond v (write_output v x, w)).0
  write-EndOf r file content (err e) w q = (e, q)
  write-EndOf r file content (ok _) w q = (refl, refl, q)

  respond_write-log :
      (x : Result (Unit {0})) (w : List Exec) → (respond v (write_output v x, w)).1 ≡ w
  respond_write-log (err e) w = refl
  respond_write-log (ok _) w = refl

  copy-Executed :
      (r : Request) (args : List String) (w : List Exec)
      → Executed r w (asked_copy r args) (respond v (execute_copy_request v r args w))
  copy-Executed r [] w = (sym (append-nil w), tt)
  copy-Executed r (file ∷ []) w = (sym (append-nil w), tt)
  copy-Executed r (file ∷ content ∷ []) w = (
    respond_write-log (v.write_file (dest_file v r file) content) _,
    write-EndOf r (dest_file v r file) content (v.write_file (dest_file v r file) content) _ refl,
  )
  copy-Executed r (file ∷ content ∷ x ∷ rest) w = (sym (append-nil w), tt)

  execute-Executed :
      (r : Request) (w : List Exec) → Executed r w (asked r) (respond v (execute_request v r w))
  execute-Executed r w = elim (Bool-cases (str_eq r.kind "run")) [
    | inl t ↦ rw t (run-Executed r r.args w)
    | inr f ↦ rw f (elim (Bool-cases (str_eq r.kind "copy")) [
      | inl t ↦ rw t (copy-Executed r r.args w)
      | inr g ↦ rw g (sym (append-nil w), tt)
    ])
  ]

  -- The request was read, and has the token of the agent.
  abbrev pub Accepted : HttpRequest → Request → Type 0
  Accepted h r = (parse_request v h ≡ ok r) × (h.token ≡ v.token)

  abbrev pub Rejected : List Exec → Ended × List Exec → Type 0
  Rejected w (panicked, w') = ⊥
  Rejected w (responded x, w') = (w' ≡ w) × (x.error ≢ none)

  abbrev pub Handled : HttpRequest → List Exec → Ended × List Exec → Type 0
  Handled h w e =
      ((r : Request) × Accepted h r × Executed r w (asked r) e)
      ⊎ (((r : Request) → Accepted h r → ⊥) × Rejected w e)

  handle_parsed-Handled :
      (h : HttpRequest) (x : Result Request) (w : List Exec)
      → parse_request v h ≡ x
      → Handled h w (handle_parsed v h.token x w)
  handle_parsed-Handled h (err e) w q = inr (λ r (p, _). cc, (refl, λ n. cc))
  handle_parsed-Handled h (ok r) w q = elim (Bool-cases (str_eq h.token v.token)) [
    | inl t ↦ rw t (inl (r, (q, (eq_iff h.token v.token).0 t), execute-Executed r w))
    | inr f ↦ rw f (
        inr (
          λ x (_, t). let same : str_eq h.token v.token ≡ true = (eq_iff h.token v.token).1 t in cc,
          (refl, λ n. cc),
        ))
  ]

  -- Only a request that is a POST, that is read as JSON and that has the token of the agent makes
  -- it run a command or write a file, and then it is tried exactly once, as the request asks.
  -- Such a request is answered without an error of its own exactly if its command was run, and then
  -- with what the command has printed and with its error, or if its file was written; if it asks
  -- for nothing, by its kind or its arguments, or if the file is not written, the handler panics
  -- instead of answering with the error. Every other request is answered with an error, and
  -- nothing is done for it.
  pub handle_request-Handled :
      (h : HttpRequest) (w : List Exec) → Handled h w (handle_request v h w)
  unfolding handle_request
  handle_request-Handled h w = handle_parsed-Handled h (parse_request v h) w refl
