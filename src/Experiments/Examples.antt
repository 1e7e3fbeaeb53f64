-- ===== src/Experiments/Examples.antt =====
-- An experiment for one percent of the repositories, then for ten.
use golangci_api.Base.{ℕ, ◌≡◌, refl, true, false, [], arith}
use golangci_api.Base.Int.{pos}
use golangci_api.Experiments.{Config, hash, is_active_for_repo}
use golangci_api.Experiments.Rollout.{Listed, is_active_for_repo-grows}

abbrev config : ℕ → Config
config n = record {
  string_list = λ k. [];
  int_at = λ k. pos n;
  bool_at = λ k. false;
  to_lower = λ s. s;
  to_upper = λ s. s;
}

abbrev old_percent : ℕ
old_percent = 1

abbrev new_percent : ℕ
new_percent = 10

hash_of_a : hash "a" ≡ 3826002220
unfolding hash
hash_of_a = refl

is_active_for_repo-grows_example :
    (is_active_for_repo (config 1) "cache" "acme" "api" ≡ true
      → is_active_for_repo (config 10) "cache" "acme" "api" ≡ true)
    × (new_percent ≡ 100 → is_active_for_repo (config 10) "cache" "acme" "api" ≡ true)
    × (old_percent ≡ 0
        → is_active_for_repo (config 1) "cache" "acme" "api" ≡ true
        → Listed (config 1) "cache" "acme" "api")
is_active_for_repo-grows_example =
    is_active_for_repo-grows (config 1) "cache" "acme" "api" (λ k. pos 10) 1 10 refl refl
      (omega arith) (omega arith)
