-- ===== src/RepoAnalyses/Rendered.antt =====
-- Which of the newest two analyses is shown.
use golangci_api.Base.{
  length, ◌≤◌, arith, ◌≡◌, refl, inl, inr, String, Bool, List, [], ◌∷◌, Option, none, some,
  if◌then◌else◌, Bool-cases,
}
use golangci_api.Models.RepoAnalysis.{RepoAnalysis}
use golangci_api.RepoAnalyses.{
  Status, preparing, rendered, planned, is_complete_analysis_status, build_status,
}

abbrev pub is_complete : RepoAnalysis → Bool
is_complete a = is_complete_analysis_status a.status

-- The newest analysis that is complete.
abbrev pub newest_complete : List RepoAnalysis → Option RepoAnalysis
newest_complete [] = none
newest_complete (a ∷ rest) = if is_complete a then some a else newest_complete rest

-- The complete analysis, or the newest if there is none.
abbrev pub or_newest : RepoAnalysis → Option RepoAnalysis → RepoAnalysis
or_newest a none = a
or_newest a (some b) = b

-- What is said of the analysis to come: the status of a newer one that runs beside the one that
-- is shown; if the newest is complete, whether another one is planned.
abbrev pub next_status : RepoAnalysis → Option RepoAnalysis → Bool → String
next_status a none pending = ""
next_status a (some b) pending = if is_complete a then planned pending else a.status

-- Of rows, newest first: the newest complete analysis, and the newest one while none is complete.
abbrev pub report_of : List RepoAnalysis → String → Bool → Status
report_of [] name pending = preparing name
report_of (a ∷ rest) name pending =
    let complete = newest_complete (a ∷ rest) in
    rendered (or_newest a complete) (next_status a complete pending) name

pub build_status-report :
    (l : List RepoAnalysis) (name : String) (pending : Bool)
    → length l ≤ 2
    → build_status l name pending ≡ report_of l name pending
build_status-report [] name pending h = refl
build_status-report (a ∷ []) name pending h = elim (Bool-cases (is_complete a)) [
  | inl t ↦ rw t (rw t refl)
  | inr f ↦ rw f refl
]
build_status-report (a ∷ b ∷ []) name pending h = elim (Bool-cases (is_complete a)) [
  | inl t ↦ rw t (rw t refl)
  | inr f ↦ elim (Bool-cases (is_complete b)) [
    | inl t ↦ rw f (rw t (rw f refl))
    | inr g ↦ rw f (rw g refl)
  ]
]
build_status-report (a ∷ b ∷ c ∷ rest) name pending h = absurd (omega (arith, h))
