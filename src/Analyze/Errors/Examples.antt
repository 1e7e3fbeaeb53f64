-- ===== src/Analyze/Errors/Examples.antt =====
-- Errors of analyses, at concrete inputs.
use golangci_api.Base.{◌≡◌, ◌≢◌, ◌↔◌, refl, none, some, false}
use golangci_api.Analyze.Errors.{
  WorkError, internal, wrapped, transform_error, returned, wrap_consuming,
}
use golangci_api.Analyze.Errors.Retries.{Transient, wrap_consuming_iff}

abbrev flaky : WorkError
flaky = wrapped (internal "can't clone" "git clone failed" "timeout" false)

abbrev no_go_code : WorkError
no_go_code = wrapped (internal "can't run" "exit 5" "no go files to analyze here" false)

gives_up : wrap_consuming (returned (transform_error (some no_go_code))) ≡ none
gives_up = refl

wrap_consuming_iff_example :
    (wrap_consuming (returned (transform_error (some flaky))) ≢ none) ↔ Transient flaky
wrap_consuming_iff_example = wrap_consuming_iff flaky
