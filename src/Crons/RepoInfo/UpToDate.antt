-- ===== src/Crons/RepoInfo/UpToDate.antt =====
-- What an update of a repository's row has done.
use mathlib.Core.Option
use golangci_api.Base.{
  ℕ, ◌≡◌, ◌≢◌, refl, sym, ◌∙◌, ap, Bool, true, false, not, ◌||◌, String, List, some, Bool-cases,
  inl, inr, arith, ==_iff, ==-self, str_eq, eq_iff, if◌then◌else◌, &&-left,
}
use golangci_api.Base.Int.{ℤ, pos, negsuc, same_int}
use golangci_api.Errors.{Result, ok, err}
use golangci_api.Sql.{row_at, updates-eq-ok, row_at-update_where, row_at-update_where_ne}
use golangci_api.Models.Repo.{Repo, key, with_id, is_live}
use golangci_api.Crons.RepoInfo.{
  Env, ProviderRepo, same_bool, need_update, set_info, stored, update_row, with_provider,
  update_repo_info,
}

-- The row with what the provider tells.
abbrev pub informed : (String → String) → Repo → ProviderRepo → Repo
informed to_lower r p = record r {
  stargazers_count = p.stargazers_count;
  display_full_name = p.full_name;
  full_name = to_lower p.full_name;
  is_private = p.is_private;
}

number-set : (a b : ℤ) → (if same_int a b then a else b) ≡ b
number-set (pos m) (pos n) = ground arith
number-set (negsuc m) (negsuc n) = ground arith
number-set (pos m) (negsuc n) = refl
number-set (negsuc m) (pos n) = refl

text-set : (a b : String) → (if str_eq a b then a else b) ≡ b
text-set a b = ground (arith, eq_iff a b)

bool-set : (a b : Bool) → (if same_bool a b then a else b) ≡ b
bool-set true true = refl
bool-set true false = refl
bool-set false true = refl
bool-set false false = refl

set_info-informed :
    (to_lower : String → String) (r : Repo) (p : ProviderRepo)
    → set_info to_lower r p r ≡ informed to_lower r p
set_info-informed to_lower r p =
    rw
      (
        number-set r.stargazers_count p.stargazers_count,
        text-set r.display_full_name p.full_name,
        text-set r.full_name (to_lower p.full_name),
        bool-set r.is_private p.is_private,
      )
      refl

four-false :
    (a b c d : Bool)
    → (not a || not b || not c || not d) ≡ false
    → (a ≡ true) × (b ≡ true) × (c ≡ true) × (d ≡ true)
four-false a b c d h = ground arith

-- If nothing differs, the row is as the provider tells.
same-informed :
    (to_lower : String → String) (r : Repo) (p : ProviderRepo)
    → need_update to_lower r p ≡ false
    → informed to_lower r p ≡ r
same-informed to_lower r p h =
    let (a, b, c, d) =
      four-false (same_int r.stargazers_count p.stargazers_count)
        (str_eq r.display_full_name p.full_name) (str_eq r.full_name (to_lower p.full_name))
        (same_bool r.is_private p.is_private) h in
    sym (set_info-informed to_lower r p) ∙ rw (a, b, c, d) refl

module _ (v : Env) (r : Repo) (t : List Repo) where
  abbrev pub UpToDate : Result (Unit {0}) × List Repo → Type 0
  UpToDate (err e, t') = t' ≡ t
  UpToDate (ok _, t') =
      (p : ProviderRepo) × (v.get_repo_by_name r ≡ ok p)
      × (row_at key r.id t' ≡ some (informed v.to_lower r p))
      × ((j : ℕ) → j ≢ r.id → row_at key j t' ≡ row_at key j t)

  stored-UpToDate :
      (p : ProviderRepo) (x : Result (ℕ × List Repo))
      → row_at key r.id t ≡ some r
      → is_live r ≡ true
      → v.get_repo_by_name r ≡ ok p
      → v.repo_db.updates (with_id r.id) (set_info v.to_lower r p) t ≡ x
      → UpToDate (stored v x t)
  stored-UpToDate p (err e) at live g q = refl
  stored-UpToDate p (ok (n, t')) at live g q =
      let same = (updates-eq-ok v.repo_db (with_id r.id) (set_info v.to_lower r p) t q).1 in
      (
        p,
        g,
        rw same (
            row_at-update_where key (with_id r.id) (set_info v.to_lower r p) r.id t (λ x. refl)
            ∙ ap (Option.map (λ x. if with_id r.id x then set_info v.to_lower r p x else x)) at
            ∙ rw (==-self r.id, live) (ap some (set_info-informed v.to_lower r p))),
        λ j d. rw same (
            row_at-update_where_ne key (with_id r.id) (set_info v.to_lower r p) r.id j t (λ x. refl)
              (λ x h. (==_iff x.id r.id).0 (&&-left _ _ h)) d),
      )

  update_row-UpToDate :
      (x : Result ProviderRepo)
      → row_at key r.id t ≡ some r
      → is_live r ≡ true
      → v.get_repo_by_name r ≡ x
      → UpToDate (update_row v r x t)
  update_row-UpToDate (err e) at live g = refl
  update_row-UpToDate (ok p) at live g = elim (Bool-cases (need_update v.to_lower r p)) [
    | inl n ↦ rw n (stored-UpToDate p _ at live g refl)
    | inr n ↦ rw n (p, g, at ∙ ap some (sym (same-informed v.to_lower r p n)), λ j d. refl)
  ]

  with_provider-UpToDate :
      (x : Result (Unit {0}))
      → row_at key r.id t ≡ some r
      → is_live r ≡ true
      → UpToDate (with_provider v r x t)
  with_provider-UpToDate (err e) at live = refl
  with_provider-UpToDate (ok _) at live = update_row-UpToDate (v.get_repo_by_name r) at live refl

  -- An update of a live row that succeeds has made the row what the provider tells of the
  -- repository, its stars, its name in both spellings and its privacy, and has kept the rest of it
  -- and the other rows; an update that fails changes nothing.
  pub update_repo_info-UpToDate :
      row_at key r.id t ≡ some r → is_live r ≡ true → UpToDate (update_repo_info v r t)
  unfolding update_repo_info
  update_repo_info-UpToDate at live = with_provider-UpToDate (v.build_for_user r.user_id) at live
