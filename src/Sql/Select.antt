-- ===== src/Sql/Select.antt =====
-- A query for many rows: its filter, the order of its result, and its limit.
pub mod Reliable
use mathlib.Core.List.{Permᴰ}
use mathlib.Core.List.Memᴰ.{Memᴰ, head, tail}
use golangci_api.Base.{
  ℕ, zero, suc, ◌≤◌, ◌≡◌, sym, subst, ◌⊎◌, Bool, true, List, [], ◌∷◌, ◌++◌, Option, none, some,
  length, take, if◌then◌else◌,
}
use golangci_api.Errors.{Result, ok}

module _ {R : Type 0} where
  -- Every row of a list has the property.
  abbrev pub Every : (R → Type 0) → List R → Type 0
  Every P [] = Unit {0}
  Every P (r ∷ l) = P r × Every P l

  pub Every-take : (P : R → Type 0) (n : ℕ) (l : List R) → Every P l → Every P (take n l)
  Every-take P zero l h = tt
  Every-take P (suc n) [] h = tt
  Every-take P (suc n) (r ∷ l) h = (h.0, Every-take P n l h.1)

  pub Every-map : (P Q : R → Type 0) (l : List R) → ((r : R) → P r → Q r) → Every P l → Every Q l
  Every-map P Q [] f h = tt
  Every-map P Q (r ∷ l) f h = (f r h.0, Every-map P Q l f h.1)

  pub Every-at : (P : R → Type 0) (l : List R) {r : R} → Every P l → Memᴰ r l → P r
  Every-at P [] h m = elim m [ ]
  Every-at P (x ∷ l) h m = elim m [ head q ↦ subst P (sym q) h.0 | tail m' ↦ Every-at P l h.1 m' ]

  -- The rows come in falling order of `sort`.
  abbrev pub Falling : (R → ℕ) → List R → Type 0
  Falling sort [] = Unit {0}
  Falling sort (r ∷ l) = Every (λ x. sort x ≤ sort r) l × Falling sort l

  abbrev pub Within : Option ℕ → List R → Type 0
  Within none l = Unit {0}
  Within (some n) l = length l ≤ n

  -- The rows of a table that a filter holds of.
  abbrev pub rows_where : (R → Bool) → List R → List R
  rows_where p [] = []
  rows_where p (r ∷ t) = let rest = rows_where p t in if p r then r ∷ rest else rest

  abbrev pub Cut : Option ℕ → List R → List R → Type 0
  Cut none l rest = rest ≡ []
  Cut (some n) l rest = (rest ≡ []) ⊎ (length l ≡ n)

  -- No row is missing and none comes twice: the result and the rows beyond the limit are the rows
  -- of the filter in some order, none beyond the limit comes before one of the result, and there
  -- are such rows only if the limit is reached.
  abbrev pub Complete : (R → Bool) → (R → ℕ) → Option ℕ → List R → List R → Type 0
  Complete p sort limit t l =
      (rest : List R) × Permᴰ (rows_where p t) (l ++ rest)
      × Every (λ r. Every (λ x. sort r ≤ sort x) l) rest
      × Cut limit l rest

  -- What the database promises of a query's result.
  abbrev pub Selected : (R → Bool) → (R → ℕ) → Option ℕ → List R → List R → Type 0
  Selected p sort limit t l =
      Every (λ r. (p r ≡ true) × Memᴰ r t) l
      × Falling sort l
      × Within limit l
      × Complete p sort limit t l

pub record Select (R : Type 0) : Type 0 where
  pub select : (R → Bool) → (R → ℕ) → Option ℕ → List R → Result (List R)
  pub select_law :
      (p : R → Bool) (sort : R → ℕ) (limit : Option ℕ) (t : List R) {l : List R}
      → select p sort limit t ≡ ok l
      → Selected p sort limit t l
