-- ===== src/Crons/RepoInfo/Examples.antt =====
-- A repository that was renamed, and one whose provider does not answer.
use golangci_api.Base.{refl, [], ◌∷◌, false, true}
use golangci_api.Base.Int.{pos}
use golangci_api.Errors.{Result, ok, err, provider_failure}
use golangci_api.Sql.{reliable}
use golangci_api.Sql.Select.Reliable.{reliable_select}
use golangci_api.PrAnalyses.Examples.{api}
use golangci_api.Crons.RepoInfo.{Env, World, ProviderRepo, run}
use golangci_api.Crons.RepoInfo.Silence.{Silent, run-Silent}

abbrev env : Result ProviderRepo → Env
env answer = record {
  repo_db = reliable;
  repo_select = reliable_select;
  build_for_user = λ u. ok tt;
  get_repo_by_name = λ r. answer;
  to_lower = λ x. "acme/tool";
  print_all_errors = false;
  errors_timeout = 10;
  now = 100;
}

abbrev renamed : ProviderRepo
renamed = record { full_name = "Acme/Tool"; is_private = true; stargazers_count = pos 4 }

abbrev world : World
world = record { rows = api ∷ []; reported = [] }

run-Silent_example :
    Silent [] (run (env (err provider_failure) ∷ env (err provider_failure) ∷ []) world)
run-Silent_example =
    run-Silent (env (err provider_failure) ∷ env (err provider_failure) ∷ []) world
      (refl, (refl, tt))
