-- ===== src/Sql/Select/Reliable.antt =====
-- A server that never fails: it sorts the rows of the filter and takes the first ones.
use mathlib.Core.List.{Permᴰ}
use mathlib.Core.List.Permᴰ.{nil, cons, swap, trans}
use mathlib.Core.List.Permᴰ as PermD
use mathlib.Core.List.Memᴰ.{Memᴰ, head, tail}
use golangci_api.Base.{
  ℕ, zero, suc, ◌≤◌, ◌≡◌, refl, sym, ap, subst, Bool, true, inl, inr, List, [], ◌∷◌, ◌++◌,
  append-nil, Option, none, some, arith, leb, length, take, if◌then◌else◌, Bool-cases,
}
use golangci_api.Errors.{ok, ok-injective}
use golangci_api.Sql.Select.{
  Every, Every-take, Every-map, Falling, rows_where, Cut, Complete, Selected, Select,
}

module _ {R : Type 0} where
  -- SELECT … WHERE p ORDER BY sort DESC LIMIT n, on a server that never fails
  abbrev pub insert : (R → ℕ) → R → List R → List R
  insert sort r [] = r ∷ []
  insert sort r (x ∷ l) =
      let rest = insert sort r l in if leb (sort x) (sort r) then r ∷ x ∷ l else x ∷ rest

  abbrev pub sorted_where : (R → Bool) → (R → ℕ) → List R → List R
  sorted_where p sort [] = []
  sorted_where p sort (r ∷ t) =
      let rest = sorted_where p sort t in if p r then insert sort r rest else rest

  abbrev pub limited : Option ℕ → List R → List R
  limited none l = l
  limited (some n) l = take n l

  insert-Every :
      (P : R → Type 0) (sort : R → ℕ) (r : R) (l : List R)
      → P r
      → Every P l
      → Every P (insert sort r l)
  insert-Every P sort r [] p h = (p, tt)
  insert-Every P sort r (x ∷ l) p h = elim (Bool-cases (leb (sort x) (sort r))) [
    | inl t ↦ rw t (p, h)
    | inr f ↦ rw f (h.0, insert-Every P sort r l p h.1)
  ]

  insert-Falling :
      (sort : R → ℕ) (r : R) (l : List R) → Falling sort l → Falling sort (insert sort r l)
  insert-Falling sort r [] h = (tt, tt)
  insert-Falling sort r (x ∷ l) h = elim (Bool-cases (leb (sort x) (sort r))) [
    | inl t ↦ rw t (
      (
        ground (arith, t),
        Every-map (λ y. sort y ≤ sort x) (λ y. sort y ≤ sort r) l (λ y b. ground (arith, t, b)) h.0,
      ),
      h,
    )
    | inr f ↦ rw f (
      insert-Every (λ y. sort y ≤ sort x) sort r l (ground (arith, f)) h.0,
      insert-Falling sort r l h.1,
    )
  ]

  sorted_where-Every :
      (P : R → Type 0) (p : R → Bool) (sort : R → ℕ) (t : List R)
      → ((r : R) → Memᴰ r t → p r ≡ true → P r)
      → Every P (sorted_where p sort t)
  sorted_where-Every P p sort [] f = tt
  sorted_where-Every P p sort (r ∷ t) f =
      let rest = sorted_where-Every P p sort t (λ x m. f x (tail m)) in
      elim (Bool-cases (p r)) [
        | inl e ↦ rw e (insert-Every P sort r (sorted_where p sort t) (f r (head refl) e) rest)
        | inr e ↦ rw e rest
      ]

  sorted_where-Falling :
      (p : R → Bool) (sort : R → ℕ) (t : List R) → Falling sort (sorted_where p sort t)
  sorted_where-Falling p sort [] = tt
  sorted_where-Falling p sort (r ∷ t) =
      let rest = sorted_where-Falling p sort t in
      elim (Bool-cases (p r)) [
        | inl e ↦ rw e (insert-Falling sort r (sorted_where p sort t) rest)
        | inr e ↦ rw e rest
      ]

  take-Falling : (sort : R → ℕ) (n : ℕ) (l : List R) → Falling sort l → Falling sort (take n l)
  take-Falling sort zero l h = tt
  take-Falling sort (suc n) [] h = tt
  take-Falling sort (suc n) (r ∷ l) h =
      (Every-take (λ x. sort x ≤ sort r) n l h.0, take-Falling sort n l h.1)

  length-take : (n : ℕ) (l : List R) → length (take n l) ≤ n
  length-take zero l = omega arith
  length-take (suc n) [] = omega arith
  length-take (suc n) (r ∷ l) = omega (arith, length-take n l)

  insert-Permᴰ : (sort : R → ℕ) (r : R) (l : List R) → Permᴰ (r ∷ l) (insert sort r l)
  insert-Permᴰ sort r [] = PermD.refl (r ∷ [])
  insert-Permᴰ sort r (x ∷ l) = elim (Bool-cases (leb (sort x) (sort r))) [
    | inl t ↦ rw t (PermD.refl (r ∷ x ∷ l))
    | inr f ↦ rw f (trans (swap refl refl) (cons refl (insert-Permᴰ sort r l)))
  ]

  sorted_where-Permᴰ :
      (p : R → Bool) (sort : R → ℕ) (t : List R) → Permᴰ (rows_where p t) (sorted_where p sort t)
  sorted_where-Permᴰ p sort [] = nil
  sorted_where-Permᴰ p sort (r ∷ t) =
      let rest = sorted_where-Permᴰ p sort t in
      elim (Bool-cases (p r)) [
        | inl e ↦ rw e (trans (cons refl rest) (insert-Permᴰ sort r (sorted_where p sort t)))
        | inr e ↦ rw e rest
      ]

  abbrev drop : ℕ → List R → List R
  drop zero l = l
  drop (suc n) [] = []
  drop (suc n) (r ∷ l) = drop n l

  take-drop : (n : ℕ) (l : List R) → take n l ++ drop n l ≡ l
  take-drop zero l = refl
  take-drop (suc n) [] = refl
  take-drop (suc n) (r ∷ l) = ap (λ x. r ∷ x) (take-drop n l)

  drop-Cut : (n : ℕ) (l : List R) → Cut (some n) (take n l) (drop n l)
  drop-Cut zero l = inr refl
  drop-Cut (suc n) [] = inl refl
  drop-Cut (suc n) (r ∷ l) = elim (drop-Cut n l) [ inl e ↦ inl e | inr e ↦ inr (ap suc e) ]

  Every-drop : (P : R → Type 0) (n : ℕ) (l : List R) → Every P l → Every P (drop n l)
  Every-drop P zero l h = h
  Every-drop P (suc n) [] h = tt
  Every-drop P (suc n) (r ∷ l) h = Every-drop P n l h.1

  Every-both : (P Q : R → Type 0) (l : List R) → Every P l → Every Q l → Every (λ r. P r × Q r) l
  Every-both P Q [] h k = tt
  Every-both P Q (r ∷ l) h k = ((h.0, k.0), Every-both P Q l h.1 k.1)

  -- The rows beyond the limit come after those within it.
  drop_after_take :
      (sort : R → ℕ) (n : ℕ) (l : List R)
      → Falling sort l
      → Every (λ r. Every (λ x. sort r ≤ sort x) (take n l)) (drop n l)
  drop_after_take sort zero l h = all_above l
    where
      all_above : (l : List R) → Every (λ r. Unit {0}) l
      all_above [] = tt
      all_above (r ∷ l) = (tt, all_above l)
  drop_after_take sort (suc n) [] h = tt
  drop_after_take sort (suc n) (r ∷ l) h =
      Every-both (λ x. sort x ≤ sort r) (λ x. Every (λ y. sort x ≤ sort y) (take n l)) (drop n l)
        (Every-drop (λ x. sort x ≤ sort r) n l h.0) (drop_after_take sort n l h.1)

  limited-Complete :
      (p : R → Bool) (sort : R → ℕ) (limit : Option ℕ) (t : List R)
      → Complete p sort limit t (limited limit (sorted_where p sort t))
  limited-Complete p sort none t = (
    [],
    subst (Permᴰ (rows_where p t)) (sym (append-nil (sorted_where p sort t)))
        (sorted_where-Permᴰ p sort t),
    tt,
    refl,
  )
  limited-Complete p sort (some n) t = (
    drop n (sorted_where p sort t),
    subst (Permᴰ (rows_where p t)) (sym (take-drop n (sorted_where p sort t)))
        (sorted_where-Permᴰ p sort t),
    drop_after_take sort n (sorted_where p sort t) (sorted_where-Falling p sort t),
    drop-Cut n (sorted_where p sort t),
  )

  pub limited-Selected :
      (p : R → Bool) (sort : R → ℕ) (limit : Option ℕ) (t : List R)
      → Selected p sort limit t (limited limit (sorted_where p sort t))
  limited-Selected p sort none t = (
    sorted_where-Every (λ r. (p r ≡ true) × Memᴰ r t) p sort t (λ r m e. (e, m)),
    sorted_where-Falling p sort t,
    tt,
    limited-Complete p sort none t,
  )
  limited-Selected p sort (some n) t = (
    Every-take (λ r. (p r ≡ true) × Memᴰ r t) n (sorted_where p sort t)
        (sorted_where-Every (λ r. (p r ≡ true) × Memᴰ r t) p sort t (λ r m e. (e, m))),
    take-Falling sort n (sorted_where p sort t) (sorted_where-Falling p sort t),
    length-take n (sorted_where p sort t),
    limited-Complete p sort (some n) t,
  )

-- A server that never fails.
unfoldable pub reliable_select : {R : Type 0} → Select R
reliable_select = record {
  select = λ p sort limit t. ok (limited limit (sorted_where p sort t));
  select_law = λ p sort limit t h.
      subst (Selected p sort limit t) (ok-injective h) (limited-Selected p sort limit t);
}
