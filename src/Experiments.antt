-- ===== src/Experiments.antt =====
-- pkg/worker/lib/experiments/checker.go: which repositories an experiment is active for. The
-- configuration, strings.ToLower and strings.ToUpper are parameters; names are ASCII, so that the
-- bytes of a name are the codes of its characters.
pub mod Rollout
mod Examples
use Prim.Native.Char.{code}
use Prim.Native.Nat.{bit_xor}
use Prim.Native.String.{◌++◌ as str_append}
use golangci_api.Base.{
  ℕ, ◌*◌, ◌%◌, ◌^◌, String, Bool, true, false, not, ◌&&◌, ◌||◌, List, [], ◌∷◌, leb, ltb, str_eq,
  if◌then◌else◌,
}
use golangci_api.Base.Int.{ℤ, pos, negsuc}

-- `int_at` is GetInt with the default 0, `bool_at` is GetBool with the default false.
pub record Config : Type 0 where
  pub string_list : String → List String
  pub int_at : String → ℤ
  pub bool_at : String → Bool
  pub to_lower : String → String
  pub to_upper : String → String

abbrev pub codes : String → List ℕ
codes String.[] = []
codes (String.◌∷◌ c s) = code c ∷ codes s

-- FNV-1a on 32 bits, from the state `h` on
abbrev pub fnv32a : List ℕ → ℕ → ℕ
fnv32a [] h = h
fnv32a (b ∷ bytes) h = fnv32a bytes (bit_xor h b * 16777619 % 2 ^ 32)

pub hash : String → ℕ
hash s = fnv32a (codes s) 2166136261

-- getConfigKey
abbrev pub get_config_key : Config → String → String → String
get_config_key c name suffix = c.to_upper (str_append name (str_append "_" suffix))

abbrev pub mem : String → List String → Bool
mem x [] = false
mem x (y ∷ ys) = str_eq y x || mem x ys

abbrev pub lower_all : Config → List String → List String
lower_all c [] = []
lower_all c (x ∷ xs) = c.to_lower x ∷ lower_all c xs

-- parseConfigVarToBoolMap, as the list of the keys
abbrev pub parse_config_var_to_bool_map : Config → String → List String
parse_config_var_to_bool_map c k = lower_all c (c.string_list k)

abbrev pub full_repo_name : String → String → String
full_repo_name owner repo = str_append owner (str_append "/" repo)

-- the tests of the percentage, from that and from the hash
abbrev pub by_percent : ℤ → ℕ → Bool
by_percent (negsuc n) h = false
by_percent (pos n) h = if leb n 100 then not (leb n (h % 100)) else false

-- IsActiveForRepo
unfoldable pub is_active_for_repo : Config → String → String → String → Bool
unfolding hash
is_active_for_repo c name owner repo =
    if mem (c.to_lower (full_repo_name owner repo))
      (parse_config_var_to_bool_map c (get_config_key c name "repos"))
    then true
    else if mem (c.to_lower owner) (parse_config_var_to_bool_map c (get_config_key c name "owners"))
    then true
    else by_percent (c.int_at (get_config_key c name "percent")) (hash (full_repo_name owner repo))

-- IsActiveForAnalysis
abbrev pub is_active_for_analysis : Config → String → String → String → Bool → Bool
is_active_for_analysis c name owner repo for_pull =
    if for_pull && not (c.bool_at (get_config_key c name "for_pulls"))
    then false
    else is_active_for_repo c name owner repo
