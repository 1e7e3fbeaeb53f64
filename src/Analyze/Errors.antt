-- ===== src/Analyze/Errors.antt =====
-- pkg/worker/analyze/processors/errors.go, and isRecoverableError and wrapConsuming of
-- pkg/worker/analyze/analyzequeue/consumers: what an error of an analysis means for the status that
-- is shown, and whether its task is delivered again. Texts of wrapped errors are left out.
pub mod Retries
mod Examples
use text.Mathlib.Text.{find?}
use golangci_api.Base.{
  ℕ, String, Bool, true, false, not, ◌||◌, Option, none, some, ◌==◌, if◌then◌else◌,
}

-- github.Status
pub data Status : Type 0 where
  pending failure error success : Status

pub data WorkError : Type 0 where
  no_branch_or_repo no_commit : WorkError  -- fetchers.ErrNoBranchOrRepo, fetchers.ErrNoCommit
  nothing_to_analyze unrecoverable : WorkError  -- ErrNothingToAnalyze, ErrUnrecoverable
  executor_fail : WorkError  -- executors.ErrExecutorFail
  pr_not_found unauthorized user_is_blocked : WorkError  -- github.ErrPRNotFound and the others
  commit_is_not_part_of_pull : WorkError
  internal : String → String → String → Bool → WorkError  -- *errorutils.InternalError
  bad_input : String → WorkError  -- *errorutils.BadInputError
  ignored : Status → String → WorkError  -- *IgnoredError
  other : String → WorkError
  wrapped : WorkError → WorkError  -- errors.Wrap

abbrev pub cause : WorkError → WorkError
cause (wrapped e) = cause e
cause e = e

-- strings.Contains(stdErr, noGoFilesToAnalyzeErr)
abbrev pub says_no_go_files : String → Bool
says_no_go_files std_err = elim (find? std_err "no go files to analyze") [
  | none ↦ false
  | some at ↦ true
]

abbrev pub is_nothing_to_analyze_cause : WorkError → Bool
is_nothing_to_analyze_cause nothing_to_analyze = true
is_nothing_to_analyze_cause (internal public_desc private_desc std_err is_permanent) =
    says_no_go_files std_err
is_nothing_to_analyze_cause _ = false

-- isNothingToAnalyzeError
abbrev pub is_nothing_to_analyze : WorkError → Bool
is_nothing_to_analyze e = is_nothing_to_analyze_cause (cause e)

-- the tests of transformError after the first two, on the cause `c` of `e`
abbrev pub transform_cause : WorkError → WorkError → WorkError
transform_cause e (internal public_desc private_desc std_err is_permanent) =
    if is_permanent
    then wrapped unrecoverable
    else internal public_desc private_desc std_err is_permanent
transform_cause e (bad_input desc) = wrapped unrecoverable
transform_cause e (ignored status desc) = wrapped unrecoverable
transform_cause e c = e

abbrev pub is_missing : WorkError → Bool
is_missing no_branch_or_repo = true
is_missing no_commit = true
is_missing _ = false

abbrev pub transform_with : WorkError → WorkError → WorkError
transform_with e c =
    if is_missing c
    then wrapped unrecoverable
    else if is_nothing_to_analyze_cause c
    then nothing_to_analyze
    else transform_cause e c

-- transformError; no error is `none`
abbrev pub transform_error : Option WorkError → Option WorkError
transform_error none = none
transform_error (some e) = some (transform_with e (cause e))

abbrev pub cause_to_status : WorkError → String
cause_to_status unrecoverable = "processed"
cause_to_status nothing_to_analyze = "processed"
cause_to_status (internal public_desc private_desc std_err is_permanent) =
    if says_no_go_files std_err then "processed" else "error"
cause_to_status no_branch_or_repo = "not_found"
cause_to_status no_commit = "not_found"
cause_to_status _ = "error"

-- errorToStatus
abbrev pub error_to_status : Option WorkError → String
error_to_status none = "processed"
error_to_status (some e) = cause_to_status (cause e)

abbrev pub public_cause : WorkError → String
public_cause (ignored status desc) = ""
public_cause nothing_to_analyze = "nothing to analyze"
public_cause (internal public_desc private_desc std_err is_permanent) =
    if says_no_go_files std_err then "nothing to analyze" else public_desc
public_cause (bad_input desc) = "can't analyze"
public_cause _ = "Internal error"

-- buildPublicError
abbrev pub build_public_error : Option WorkError → String
build_public_error none = ""
build_public_error (some e) = public_cause (cause e)

abbrev pub pull_cause_status : WorkError → Status
pull_cause_status (ignored status desc) = status
pull_cause_status nothing_to_analyze = success
pull_cause_status (internal public_desc private_desc std_err is_permanent) =
    if says_no_go_files std_err then success else error
pull_cause_status _ = error

-- pullErrorToGithubStatusAndDesc, its status, for a result with that many issues
abbrev pub pull_error_to_status : Option WorkError → ℕ → Status
pull_error_to_status none issues = if issues == 0 then success else failure
pull_error_to_status (some e) issues = pull_cause_status (cause e)

-- github.IsRecoverableError, on the cause
abbrev pub is_recoverable_on_github : WorkError → Bool
is_recoverable_on_github pr_not_found = false
is_recoverable_on_github unauthorized = false
is_recoverable_on_github user_is_blocked = false
is_recoverable_on_github commit_is_not_part_of_pull = false
is_recoverable_on_github _ = true

abbrev pub is_recoverable_cause : WorkError → Bool
is_recoverable_cause executor_fail = true
is_recoverable_cause unrecoverable = false
is_recoverable_cause no_branch_or_repo = false
is_recoverable_cause no_commit = false
is_recoverable_cause nothing_to_analyze = false
is_recoverable_cause e = is_recoverable_on_github e

-- isRecoverableError
abbrev pub is_recoverable_error : WorkError → Bool
is_recoverable_error e = is_recoverable_cause (cause e)

-- How the function that wrapConsuming calls has ended.
pub data Ended : Type 0 where
  returned : Option WorkError → Ended
  panicked : String → Ended

-- wrapConsuming: what it returns; a returned error makes the queue deliver the task again
abbrev pub wrap_consuming : Ended → Option WorkError
wrap_consuming (panicked text) = some (other text)
wrap_consuming (returned none) = none
wrap_consuming (returned (some e)) = if is_recoverable_error e then some e else none
