-- ===== src/Analyze/RepoProcessor/Examples.antt =====
-- An analysis whose linters fail, one whose executor does, and one that panics.
use golangci_api.Base.{◌≡◌, refl, [], ◌∷◌, none, some, true, false}
use golangci_api.Analyze.Errors.{
  bad_input, executor_fail, wrapped, internal, Ended, returned, panicked,
}
use golangci_api.Analyze.RepoProcessor.{processing, final, Env, process, consumed}
use golangci_api.Analyze.RepoProcessor.Settled.{Settled, process-Settled}

abbrev env : Ended → Ended → Env
env setup linters = record {
  get_state = some "sent_to_queue";
  update_state = λ u x. true;
  setup_executor = setup;
  setup_workspace = returned none;
  run_linters = linters;
}

abbrev bad_code : Env
bad_code = env (returned none) (returned (some (bad_input "typecheck")))

shows_error : (process bad_code []).1 ≡ processing ∷ final "error" "can't analyze" false ∷ []
unfolding process
shows_error = refl

gives_up : consumed bad_code [] ≡ none
unfolding process
gives_up = refl

tries_again :
    process (env (returned (some executor_fail)) (returned none)) []
    ≡ (some (wrapped (wrapped executor_fail)), processing ∷ [])
unfolding process
tries_again = refl

panics : process (env (returned none) (panicked "nil")) [] ≡ (
  some (internal "internal error" "nil" "" false),
  processing ∷ final "error" "internal error" false ∷ [],
)
unfolding process
panics = refl

-- An API that stores nothing: the task ends all the same.
abbrev deaf : Env
deaf = record bad_code { update_state = λ u x. false }

leaves_nothing : (process deaf []).1 ≡ []
unfolding process
leaves_nothing = refl

process-Settled_example : Settled bad_code [] (process bad_code [])
process-Settled_example = process-Settled bad_code []
