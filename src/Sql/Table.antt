-- ===== src/Sql/Table.antt =====
-- What a query means on the rows of a table, in the order of their keys.
use mathlib.Core.Option
use mathlib.Core.List.Memᴰ.{Memᴰ, head, tail}
use mathlib.Core.Option.{some-injective}
use golangci_api.Base.{
  ℕ, suc, ◌≡◌, refl, Bool, true, ◌&&◌, List, [], ◌∷◌, Option, none, some, inl, ◌≢◌, inr, sym, subst,
  ap, arith, ◌==◌, ==-self, ==_iff, if◌then◌else◌, Bool-cases,
}
use golangci_api.Errors.{Result, ok, err, record_not_found, ok-injective}

module _ {R : Type 0} where
  -- SELECT … WHERE p ORDER BY id LIMIT 1
  abbrev pub first_where : (R → Bool) → List R → Result R
  first_where p [] = err record_not_found
  first_where p (r ∷ t) = if p r then ok r else first_where p t

  -- UPDATE … SET f WHERE p
  abbrev pub update_where : (R → Bool) → (R → R) → List R → List R
  update_where p f [] = []
  update_where p f (r ∷ t) = (if p r then f r else r) ∷ update_where p f t

  -- the number of rows that WHERE p selects
  abbrev pub count_where : (R → Bool) → List R → ℕ
  count_where p [] = 0
  count_where p (r ∷ t) = let n = count_where p t in if p r then suc n else n

  pub first_where-holds : (p : R → Bool) (t : List R) {r : R} → first_where p t ≡ ok r → p r ≡ true
  first_where-holds p [] h = cc
  first_where-holds p (x ∷ t) {r} h = elim (Bool-cases (p x)) [
    | inl e ↦ let same : ok x ≡ ok r = rw e at h in subst (λ y. p y ≡ true) (ok-injective same) e
    | inr e ↦ first_where-holds p t (rw e at h)
  ]

  pub first_where-Memᴰ : (p : R → Bool) (t : List R) {r : R} → first_where p t ≡ ok r → Memᴰ r t
  first_where-Memᴰ p [] h = cc
  first_where-Memᴰ p (x ∷ t) {r} h = elim (Bool-cases (p x)) [
    | inl e ↦ let same : ok x ≡ ok r = rw e at h in head (sym (ok-injective same))
    | inr e ↦ tail (first_where-Memᴰ p t (rw e at h))
  ]

  abbrev pub map_row : (R → R) → Result R → Result R
  map_row f (ok r) = ok (f r)
  map_row f (err e) = err e

  -- An update that a filter does not see keeps the row that the filter finds.
  pub first_where-update_where :
      (q p : R → Bool) (f : R → R) (t : List R)
      → ((r : R) → q (f r) ≡ q r)
      → first_where q (update_where p f t) ≡ map_row (λ r. if p r then f r else r) (first_where q t)
  first_where-update_where q p f [] keep = refl
  first_where-update_where q p f (r ∷ t) keep =
      ground (arith, keep r, first_where-update_where q p f t keep)

module _ {R : Type 0} (key : R → ℕ) where
  -- the row with a key
  abbrev pub row_at : ℕ → List R → Option R
  row_at i [] = none
  row_at i (r ∷ t) = if key r == i then some r else row_at i t

  -- keys are unique
  abbrev pub Unique : List R → Type 0
  Unique [] = Unit {0}
  Unique (r ∷ t) = (row_at (key r) t ≡ none) × Unique t

  abbrev pub hit : (R → Bool) → Option R → ℕ
  hit q none = 0
  hit q (some r) = if q r then 1 else 0

  pub row_at-key : (i : ℕ) (t : List R) {r : R} → row_at i t ≡ some r → key r ≡ i
  row_at-key i [] h = cc
  row_at-key i (x ∷ t) {r} h = elim (Bool-cases (key x == i)) [
    | inl e ↦
        let same : x ≡ r = some-injective _ _ (rw e at h) in
        subst (λ y. key y ≡ i) same ((==_iff (key x) i).0 e)
    | inr e ↦ row_at-key i t (rw e at h)
  ]

  -- Wherever the update keeps keys, it acts on the row of each key by itself.
  pub row_at-update_where :
      (p : R → Bool) (f : R → R) (i : ℕ) (t : List R)
      → ((r : R) → key (f r) ≡ key r)
      → row_at i (update_where p f t) ≡ Option.map (λ r. if p r then f r else r) (row_at i t)
  row_at-update_where p f i [] keep = refl
  row_at-update_where p f i (r ∷ t) keep = ground (arith, keep r, row_at-update_where p f i t keep)

  -- An update that selects rows of one key only keeps the rows of the other keys.
  pub row_at-update_where_ne :
      (p : R → Bool) (f : R → R) (i j : ℕ) (t : List R)
      → ((r : R) → key (f r) ≡ key r)
      → ((r : R) → p r ≡ true → key r ≡ i)
      → j ≢ i
      → row_at j (update_where p f t) ≡ row_at j t
  row_at-update_where_ne p f i j [] keep only h = refl
  row_at-update_where_ne p f i j (r ∷ t) keep only h =
      ground (arith, keep r, only r, row_at-update_where_ne p f i j t keep only h)

  pub update_where-Unique :
      (p : R → Bool) (f : R → R) (t : List R)
      → ((r : R) → key (f r) ≡ key r)
      → Unique t
      → Unique (update_where p f t)
  update_where-Unique p f [] keep u = tt
  update_where-Unique p f (r ∷ t) keep u =
      ground
        (arith, keep r, row_at-update_where p f (key r) t keep, update_where-Unique p f t keep u.1)

  pub first_where-row_at :
      (p : R → Bool) (t : List R) {r : R}
      → Unique t
      → first_where p t ≡ ok r
      → row_at (key r) t ≡ some r
  first_where-row_at p [] u h = cc
  first_where-row_at p (x ∷ t) {r} u h = elim (Bool-cases (p x)) [
    | inl e ↦ let same : x ≡ r = ok-injective (rw e at h) in rw same (rw (==-self (key r)) refl)
    | inr e ↦
        let found : row_at (key r) t ≡ some r = first_where-row_at p t u.1 (rw e at h) in
        ground (arith, found)
  ]

  -- Where keys are unique, a row of the table is the row of its key.
  pub Memᴰ-row_at : (t : List R) {r : R} → Unique t → Memᴰ r t → row_at (key r) t ≡ some r
  Memᴰ-row_at [] u m = elim m [ ]
  Memᴰ-row_at (x ∷ t) {r} u m = elim m [
    | head q ↦ rw (sym q) (rw (==-self (key r)) refl)
    | tail m' ↦ elim (Bool-cases (key x == key r)) [
      | inr f ↦ rw f (Memᴰ-row_at t u.1 m')
      | inl e ↦
          let absent : row_at (key r) t ≡ none =
            subst (λ i. row_at i t ≡ none) ((==_iff (key x) (key r)).0 e) u.0 in
          let found = Memᴰ-row_at t u.1 m' in cc
    ]
  ]

  count_absent :
      (q : R → Bool) (i : ℕ) (t : List R)
      → row_at i t ≡ none
      → count_where (λ r. key r == i && q r) t ≡ 0
  count_absent q i [] h = refl
  count_absent q i (r ∷ t) h = ground (arith, count_absent q i t)

  -- A query by key selects at most the row of that key.
  pub count_where-key :
      (q : R → Bool) (i : ℕ) (t : List R)
      → Unique t
      → count_where (λ r. key r == i && q r) t ≡ hit q (row_at i t)
  count_where-key q i [] u = refl
  count_where-key q i (r ∷ t) u = ground (arith, count_absent q i t, count_where-key q i t u.1)

-- An update that selects no row changes nothing.
module _ {R : Type 0} where
  pub update_where-none :
      (p : R → Bool) (f : R → R) (t : List R) → count_where p t ≡ 0 → update_where p f t ≡ t
  update_where-none p f [] h = refl
  update_where-none p f (r ∷ t) h = ground (arith, update_where-none p f t)

  pub first_where-key :
      (key : R → ℕ) (i : ℕ) (t : List R) {r : R}
      → row_at key i t ≡ some r
      → first_where (λ x. key x == i) t ≡ ok r
  first_where-key key i [] h = cc
  first_where-key key i (x ∷ t) {r} h = elim (Bool-cases (key x == i)) [
    | inl e ↦ let same : some x ≡ some r = rw e at h in rw e (ap ok (some-injective _ _ same))
    | inr e ↦ rw e (first_where-key key i t (rw e at h))
  ]
