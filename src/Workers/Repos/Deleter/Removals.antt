-- ===== src/Workers/Repos/Deleter/Removals.antt =====
-- What it means that a removal at the provider was made, and which answers the consumer tolerates.
use golangci_api.Base.{◌≡◌, refl, ◌⊎◌, inl, inr, Bool, true, false, ap, subst, sym, Bool-cases}
use golangci_api.Errors.{Error, Result, ok, err, wrap, provider_not_found}
use golangci_api.Workers.Repos.Provider.{Cleared, is_not_found}
use golangci_api.Workers.Repos.Deleter.{tolerate_not_found}

-- A removal was answered with success, and its object is gone, or with "not found".
abbrev pub Settled : Result (Unit {0}) → Bool → Type 0
Settled answer present = ((answer ≡ ok tt) × (present ≡ false)) ⊎ (answer ≡ err provider_not_found)

only_not_found : (e : Error) → is_not_found e ≡ true → e ≡ provider_not_found
only_not_found provider_not_found h = refl
only_not_found _ h = cc

-- A removal is tolerated only if it was answered with success or with "not found".
pub tolerate_not_found-Settled :
    {S : Type 0} (present : S → Bool) (r : Result (Unit {0}) × S)
    → Cleared present r
    → ((tolerate_not_found r ≡ (ok tt, r.1)) × Settled r.0 (present r.1))
      ⊎ ((e : Error) × (tolerate_not_found r ≡ (err (wrap e), r.1)))
tolerate_not_found-Settled present (ok _, s) g = inl (refl, inl (refl, g))
tolerate_not_found-Settled present (err e, s) g = elim (Bool-cases (is_not_found e)) [
  | inr f ↦ inr (e, rw f refl)
  | inl t ↦ inl (rw t refl, inr (ap err (only_not_found e t)))
]

pub Settled-map :
    (answer : Result (Unit {0})) (p p' : Bool)
    → (p ≡ false → p' ≡ false)
    → Settled answer p
    → Settled answer p'
Settled-map answer p p' f (inl (a, h)) = inl (a, f h)
Settled-map answer p p' f (inr h) = inr h

-- The answer of a provider that does its work: success, or that there is nothing to remove.
abbrev pub Answered : Result (Unit {0}) → Type 0
Answered answer = (answer ≡ ok tt) ⊎ (answer ≡ err provider_not_found)

pub tolerate_not_found_succeeds :
    {S : Type 0} (r : Result (Unit {0}) × S) → Answered r.0 → (tolerate_not_found r).0 ≡ ok tt
tolerate_not_found_succeeds (ok _, s) a = refl
tolerate_not_found_succeeds (err e, s) (inl q) = cc
tolerate_not_found_succeeds (err e, s) (inr q) =
    subst (λ x. (tolerate_not_found (x, s)).0 ≡ ok tt) (sym q) refl
