-- ===== src/PrAnalyses/Previous.antt =====
-- The loop that collects the previous analyses of a pull request.
use mathlib.Core.List.Memᴰ.{Memᴰ, head, tail}
use golangci_api.Base.{
  ℕ, zero, suc, ◌+◌, ◌≤◌, ◌≡◌, refl, sym, subst, ◌∙◌, ap, ◌⊎◌, inl, inr, String, Bool, true, false,
  ◌||◌, List, [], ◌∷◌, ◌++◌, map, arith, ◌==◌, length, length-append, append-nil, append_assoc,
  take, Bool-cases, str_eq, eq_iff,
}
use golangci_api.Sql.Select.{Every, Every-map}
use golangci_api.Models.PullRequestAnalysis.{PullRequestAnalysis}
use golangci_api.PrAnalyses.{SamePullStateLink, add_previous, link_of, seen}

-- The first analysis of each commit that is not in `shas`.
abbrev pub fresh : List String → List PullRequestAnalysis → List PullRequestAnalysis
fresh shas [] = []
fresh shas (a ∷ rest) = elim (seen a.commit_sha shas) [
  | true ↦ fresh shas rest
  | false ↦ a ∷ fresh (a.commit_sha ∷ shas) rest
]

length-snoc :
    (xs : List SamePullStateLink) (y : SamePullStateLink) → length (xs ++ y ∷ []) ≡ suc (length xs)
length-snoc xs y = omega (arith, length-append xs (y ∷ []))

==-true : (k : ℕ) → k ≡ 5 → (k == 5) ≡ true
==-true k h = ground arith

==-false : (k n : ℕ) → k + suc n ≡ 5 → (k == 5) ≡ false
==-false k n h = ground arith

-- The loop stops at the fifth link, and has then the first analyses of the commits.
pub add_previous-fresh :
    (n : ℕ) (rest : List PullRequestAnalysis) (shas : List String) (links : List SamePullStateLink)
    → length links + suc n ≡ 5
    → add_previous rest shas links ≡ links ++ map link_of (take (suc n) (fresh shas rest))
add_previous-fresh n [] shas links h = sym (append-nil links)
add_previous-fresh zero (a ∷ rest) shas links h = elim (Bool-cases (seen a.commit_sha shas)) [
  | inl t ↦ rw (add_previous, fresh, t) (add_previous-fresh zero rest shas links h)
  | inr f ↦
      let full : (length (links ++ link_of a ∷ []) == 5) ≡ true =
        ==-true _ (length-snoc links (link_of a) ∙ omega (arith, h)) in
      rw (add_previous, fresh, f) (rw full refl)
]
add_previous-fresh (suc n) (a ∷ rest) shas links h = elim (Bool-cases (seen a.commit_sha shas)) [
  | inl t ↦ rw (add_previous, fresh, t) (add_previous-fresh (suc n) rest shas links h)
  | inr f ↦
      let links' = links ++ link_of a ∷ [] in
      let more : length links' + suc n ≡ 5 = omega (arith, h, length-snoc links (link_of a)) in
      rw (add_previous, fresh, f)
        (rw (==-false (length links') n more) (
          add_previous-fresh n rest (a.commit_sha ∷ shas) links' more
          ∙ append_assoc links (link_of a ∷ []) _))
]

swap : (a b c : Bool) → ((a || b) || c) ≡ true → (b || (a || c)) ≡ true
swap a b c h = ground arith

-- The links are of commits that are not in `shas`, each of another commit.
abbrev pub Distinct : List String → List SamePullStateLink → Type 0
Distinct shas [] = Unit {0}
Distinct shas (l ∷ links) = (seen l.commit_sha shas ≡ false) × Distinct (l.commit_sha ∷ shas) links

abbrev pub linked : String → List SamePullStateLink → Bool
linked sha [] = false
linked sha (l ∷ links) = str_eq l.commit_sha sha || linked sha links

-- Each analysis is of a commit in `shas` or has a link to its commit.
abbrev pub Covered : List String → List SamePullStateLink → List PullRequestAnalysis → Type 0
Covered shas links rest =
    Every (λ a. (seen a.commit_sha shas || linked a.commit_sha links) ≡ true) rest

fresh-Distinct :
    (n : ℕ) (rest : List PullRequestAnalysis) (shas : List String)
    → Distinct shas (map link_of (take n (fresh shas rest)))
fresh-Distinct zero rest shas = tt
fresh-Distinct (suc n) [] shas = tt
fresh-Distinct (suc n) (a ∷ rest) shas = elim (Bool-cases (seen a.commit_sha shas)) [
  | inl t ↦ rw (fresh, t) (fresh-Distinct (suc n) rest shas)
  | inr f ↦ rw (fresh, f) (f, fresh-Distinct n rest (a.commit_sha ∷ shas))
]

length-fresh : (n : ℕ) (l : List PullRequestAnalysis) → length (map link_of (take n l)) ≤ n
length-fresh zero l = omega arith
length-fresh (suc n) [] = omega arith
length-fresh (suc n) (a ∷ l) = omega (arith, length-fresh n l)

Covered-skip :
    (shas : List String) (a : PullRequestAnalysis) (links : List SamePullStateLink)
    (rest : List PullRequestAnalysis)
    → Covered (a.commit_sha ∷ shas) links rest
    → Covered shas (link_of a ∷ links) rest
Covered-skip shas a links rest h =
    Every-map (λ x. (seen x.commit_sha (a.commit_sha ∷ shas) || linked x.commit_sha links) ≡ true)
      (λ x. (seen x.commit_sha shas || linked x.commit_sha (link_of a ∷ links)) ≡ true) rest
      (λ x e.
        swap (str_eq a.commit_sha x.commit_sha) (seen x.commit_sha shas) (linked x.commit_sha links)
          e)
      h

seen-or : (s l : Bool) → s ≡ true → (s || l) ≡ true
seen-or s l h = ground arith

itself : (s e l : Bool) → e ≡ true → (s || (e || l)) ≡ true
itself s e l h = ground arith

fresh-seen :
    (a : PullRequestAnalysis) (rest : List PullRequestAnalysis) (shas : List String)
    → seen a.commit_sha shas ≡ true
    → fresh shas (a ∷ rest) ≡ fresh shas rest
fresh-seen a rest shas t = rw (fresh, t) refl

fresh-new :
    (a : PullRequestAnalysis) (rest : List PullRequestAnalysis) (shas : List String)
    → seen a.commit_sha shas ≡ false
    → fresh shas (a ∷ rest) ≡ a ∷ fresh (a.commit_sha ∷ shas) rest
fresh-new a rest shas f = rw (fresh, f) refl

-- `n` links, or links to all commits
abbrev pub Full : ℕ → List String → List PullRequestAnalysis → List PullRequestAnalysis → Type 0
Full n shas rest l =
    (length (map link_of (take n l)) ≡ n) ⊎ Covered shas (map link_of (take n l)) rest

fresh-Covered :
    (n : ℕ) (rest : List PullRequestAnalysis) (shas : List String)
    → Full n shas rest (fresh shas rest)
fresh-Covered zero rest shas = inl refl
fresh-Covered (suc n) [] shas = inr tt
fresh-Covered (suc n) (a ∷ rest) shas = elim (Bool-cases (seen a.commit_sha shas)) [
  | inl t ↦
      subst (Full (suc n) shas (a ∷ rest)) (sym (fresh-seen a rest shas t))
        (elim (fresh-Covered (suc n) rest shas) [ inl e ↦ inl e | inr c ↦ inr (seen-or _ _ t, c) ])
  | inr f ↦
      subst (Full (suc n) shas (a ∷ rest)) (sym (fresh-new a rest shas f))
        (elim (fresh-Covered n rest (a.commit_sha ∷ shas)) [
          | inl e ↦ inl (ap suc e)
          | inr c ↦ inr (
            itself _ _ _ ((eq_iff a.commit_sha a.commit_sha).1 refl),
            Covered-skip shas a _ rest c,
          )
        ])
]

abbrev pub From : List PullRequestAnalysis → List SamePullStateLink → Type 0
From rest links = Every (λ l. (a : PullRequestAnalysis) × Memᴰ a rest × (l ≡ link_of a)) links

From-later :
    (a : PullRequestAnalysis) (rest : List PullRequestAnalysis) (links : List SamePullStateLink)
    → From rest links
    → From (a ∷ rest) links
From-later a rest links h =
    Every-map (λ l. (x : PullRequestAnalysis) × Memᴰ x rest × (l ≡ link_of x))
      (λ l. (x : PullRequestAnalysis) × Memᴰ x (a ∷ rest) × (l ≡ link_of x)) links
      (λ l (x, m, e). (x, tail m, e)) h

fresh-From :
    (n : ℕ) (rest : List PullRequestAnalysis) (shas : List String)
    → From rest (map link_of (take n (fresh shas rest)))
fresh-From zero rest shas = tt
fresh-From (suc n) [] shas = tt
fresh-From (suc n) (a ∷ rest) shas = elim (Bool-cases (seen a.commit_sha shas)) [
  | inl t ↦ rw (fresh, t) (From-later a rest _ (fresh-From (suc n) rest shas))
  | inr f ↦
      rw (fresh, f)
        ((a, head refl, refl), From-later a rest _ (fresh-From n rest (a.commit_sha ∷ shas)))
]

-- What the links beside a state of the commit `sha` are, made from the rows after it.
abbrev pub Recent : String → List PullRequestAnalysis → List SamePullStateLink → Type 0
Recent sha rest links =
    From rest links
    × Distinct (sha ∷ []) links
    × ((length links ≡ 5) ⊎ ((length links ≤ 5) × Covered (sha ∷ []) links rest))

fresh-Recent :
    (sha : String) (rest : List PullRequestAnalysis)
    → Recent sha rest (map link_of (take 5 (fresh (sha ∷ []) rest)))
fresh-Recent sha rest = (
  fresh-From 5 rest (sha ∷ []),
  fresh-Distinct 5 rest (sha ∷ []),
  elim (fresh-Covered 5 rest (sha ∷ [])) [
    | inl e ↦ inl e
    | inr c ↦ inr (length-fresh 5 (fresh (sha ∷ []) rest), c)
  ],
)

-- The links are to five analyses of the rows, each of another commit and none of the commit of
-- the state itself, or to fewer such analyses that cover the commits of all the rows.
pub add_previous-Recent :
    (sha : String) (rest : List PullRequestAnalysis)
    → Recent sha rest (add_previous rest (sha ∷ []) [])
add_previous-Recent sha rest =
    rw (add_previous-fresh 4 rest (sha ∷ []) [] refl) (fresh-Recent sha rest)
