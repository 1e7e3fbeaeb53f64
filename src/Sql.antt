-- ===== src/Sql.antt =====
-- The database server that gorm talks to (github.com/jinzhu/gorm and PostgreSQL, not in the
-- repository): what the models' query sets ask of it, for one table. A query set's filters are
-- the predicate; `First` and `Updates` are the calls behind `One`, `UpdateNum` and `Update` of
-- pkg/api/models/autogenerated_*.go. A call may always fail, and then changes nothing.
mod Table
pub mod Select
pub use Table.{first_where, update_where, count_where, row_at, Unique}
pub use Table.{
  hit, Memᴰ-row_at, row_at-key, map_row, row_at-update_where_ne, row_at-update_where,
  update_where-Unique, count_where-key, first_where-holds, first_where-Memᴰ, first_where-row_at,
  first_where-update_where, update_where-none, first_where-key,
}
use golangci_api.Base.{sym, ◌∙◌, arith, inr, ℕ, ◌≡◌, refl, ◌⊎◌, inl, Bool, false, List}
use golangci_api.Errors.{Error, Result, ok, err, is_record_not_found}

pub record Sql (R : Type 0) : Type 0 where
  pub first : (R → Bool) → List R → Result R
  pub updates : (R → Bool) → (R → R) → List R → Result (ℕ × List R)
  pub first_law :
      (p : R → Bool) (t : List R)
      → (first p t ≡ first_where p t)
        ⊎ ((e : Error) × (first p t ≡ err e) × (is_record_not_found e ≡ false))
  pub updates_law :
      (p : R → Bool) (f : R → R) (t : List R)
      → (updates p f t ≡ ok (count_where p t, update_where p f t))
        ⊎ ((e : Error) × (updates p f t ≡ err e))

-- What a call that has succeeded has done.
pub first-eq-ok :
    {R : Type 0} (db : Sql R) (p : R → Bool) (t : List R) {r : R}
    → db.first p t ≡ ok r
    → first_where p t ≡ ok r
first-eq-ok db p t h = elim (db.first_law p t) [ inl e ↦ sym e ∙ h | inr (x, e, _) ↦ cc ]

pub updates-eq-ok :
    {R : Type 0} (db : Sql R) (p : R → Bool) (f : R → R) (t : List R) {n : ℕ} {t' : List R}
    → db.updates p f t ≡ ok (n, t')
    → (n ≡ count_where p t) × (t' ≡ update_where p f t)
updates-eq-ok db p f t h = elim (db.updates_law p f t) [
  | inl e ↦ ground (arith, h, e)
  | inr (x, e) ↦ cc
]

-- A server that never fails.
unfoldable pub reliable : {R : Type 0} → Sql R
reliable = record {
  first = first_where;
  updates = λ p f t. ok (count_where p t, update_where p f t);
  first_law = λ p t. inl refl;
  updates_law = λ p f t. inl refl;
}
