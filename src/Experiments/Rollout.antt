-- ===== src/Experiments/Rollout.antt =====
-- How an experiment spreads as its percentage is raised.
use golangci_api.Base.{
  ℕ, ◌%◌, ◌≤◌, ◌<◌, ◌≡◌, ◌↔◌, refl, sym, ap, subst, ◌∙◌, ◌⊎◌, inl, inr, arith, String, Bool, true,
  false, if◌then◌else◌,
}
use golangci_api.Base.Int.{ℤ, pos, negsuc}
use golangci_api.Experiments.{
  Config, hash, mem, by_percent, full_repo_name, get_config_key, parse_config_var_to_bool_map,
  is_active_for_repo,
}

-- The percentage is valid and above the place of the repository.
abbrev pub Below : ℤ → ℕ → Type 0
Below (negsuc n) h = ⊥
Below (pos n) h = (n ≤ 100) × (h % 100 < n)

by_percent_iff : (p : ℤ) (h : ℕ) → (by_percent p h ≡ true) ↔ Below p h
by_percent_iff (negsuc n) h = (λ q. cc, λ b. absurd b)
by_percent_iff (pos n) h =
    (λ q. (ground (arith, q), ground (arith, q)), λ b. ground (arith, b.0, b.1))

three_iff :
    {P : Type 0} (a b x : Bool)
    → ((x ≡ true) ↔ P)
    → ((if a then true else if b then true else x) ≡ true) ↔ (((a ≡ true) ⊎ (b ≡ true)) ⊎ P)
three_iff true b x e = (λ q. inl (inl refl), λ q. refl)
three_iff false true x e = (λ q. inl (inr refl), λ q. refl)
three_iff false false x e =
    (λ q. inr (e.0 q), λ q. elim q [ inl (inl z) ↦ cc | inl (inr z) ↦ cc | inr z ↦ e.1 z ])

module _ (c : Config) (name owner repo : String) where
  -- The repository or its owner is in a list of the configuration.
  abbrev pub Listed : Type 0
  Listed =
      (mem (c.to_lower (full_repo_name owner repo))
          (parse_config_var_to_bool_map c (get_config_key c name "repos"))
        ≡ true)
      ⊎ (mem (c.to_lower owner) (parse_config_var_to_bool_map c (get_config_key c name "owners"))
          ≡ true)

  abbrev pub percent : ℤ
  percent = c.int_at (get_config_key c name "percent")

  -- An experiment is active for a repository exactly if it or its owner is listed, or the
  -- percentage is from 0 to 100 and above the hash of its name, modulo 100.
  pub is_active_for_repo_iff :
      (is_active_for_repo c name owner repo ≡ true)
      ↔ (Listed ⊎ Below percent (hash (full_repo_name owner repo)))
  unfolding is_active_for_repo
  is_active_for_repo_iff =
      three_iff _ _ _ (by_percent_iff percent (hash (full_repo_name owner repo)))

Below-more : (m n h : ℕ) → m ≤ n → n ≤ 100 → Below (pos m) h → Below (pos n) h
Below-more m n h le top (a, b) = (top, omega (arith, b, le))

not-Below : (h : ℕ) → Below (pos 0) h → ⊥
not-Below h (a, b) = absurd (omega (arith, b))

Below-all : (h : ℕ) → Below (pos 100) h
Below-all h = (omega arith, omega arith)

-- While the lists stay the same, an experiment stays active for each repository that it is active
-- for when its percentage is raised, up to 100; at 100 it is active for every repository, and at 0
-- only for those that are listed or whose owner is.
pub is_active_for_repo-grows :
    (c : Config) (name owner repo : String) (int_at : String → ℤ) (m n : ℕ)
    → c.int_at (get_config_key c name "percent") ≡ pos m
    → int_at (get_config_key c name "percent") ≡ pos n
    → m ≤ n
    → n ≤ 100
    → (is_active_for_repo c name owner repo ≡ true
        → is_active_for_repo (record c { int_at = int_at }) name owner repo ≡ true)
      × (n ≡ 100 → is_active_for_repo (record c { int_at = int_at }) name owner repo ≡ true)
      × (m ≡ 0 → is_active_for_repo c name owner repo ≡ true → Listed c name owner repo)
is_active_for_repo-grows c name owner repo int_at m n p q le top =
    let h = hash (full_repo_name owner repo) in
    let now = is_active_for_repo_iff c name owner repo in
    let later = is_active_for_repo_iff (record c { int_at = int_at }) name owner repo in
    (
      λ active. later.1 (elim (now.0 active) [
        | inl l ↦ inl l
        | inr b ↦
            inr (
              subst (λ x. Below x h) (sym q) (Below-more m n h le top (subst (λ x. Below x h) p b)))
      ]),
      λ e. later.1 (inr (subst (λ x. Below x h) (sym (q ∙ ap pos e)) (Below-all h))),
      λ e active. elim (now.0 active) [
        | inl l ↦ l
        | inr b ↦ absurd (not-Below h (subst (λ x. Below x h) (p ∙ ap pos e) b))
      ],
    )
