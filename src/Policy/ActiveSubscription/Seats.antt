-- ===== src/Policy/ActiveSubscription/Seats.antt =====
-- The paid seats of a subscription, and the commits that they cover.
use mathlib.Core.List.Memᴰ.{Memᴰ, head, tail}
use golangci_api.Base.{
  ℕ, zero, suc, ◌≡◌, ◌≢◌, ◌⊎◌, inl, inr, refl, sym, ap, true, false, List, [], ◌∷◌, some, ltb,
  str_eq, eq_iff, length, take, arith, Bool-cases, ◌≤◌,
}
use golangci_api.Base.Int.{pos}
use golangci_api.Errors.{ok}
use golangci_api.Models.Org.{OrgSeat}
use golangci_api.Models.OrgSub.{OrgSub}
use golangci_api.Policy.ActiveSubscription.{
  Env, Commit, CommitAuthor, is_service_email, build_paid_seats, has_seat,
  does_commit_author_have_active_sub, check_commits,
}

-- A text is a service's address, or that of a seat up to the case of its letters.
abbrev pub Seated : Env → CommitAuthor → List OrgSeat → Type 0
Seated v ca seats =
    (ca.email ≢ "")
    × ((is_service_email ca.email ≡ true)
        ⊎ ((s : OrgSeat) × Memᴰ s seats × (v.equal_fold s.email ca.email ≡ true)))

abbrev pub Covered : Env → List Commit → List OrgSeat → Type 0
Covered v commits seats =
    (c : Commit) × Memᴰ c commits × (Seated v c.author seats ⊎ Seated v c.committer seats)

take_all : (n : ℕ) (seats : List OrgSeat) → length seats ≤ n → take n seats ≡ seats
take_all zero [] h = refl
take_all zero (s ∷ seats) h = absurd (omega (arith, h))
take_all (suc n) [] h = refl
take_all (suc n) (s ∷ seats) h = ap (λ t. s ∷ t) (take_all n seats (omega (arith, h)))

-- A count that is not negative pays for that many of the first seats.
pub build_paid_seats-pos :
    (n : ℕ) (seats : List OrgSeat) (sub : OrgSub)
    → sub.seats_count ≡ pos n
    → build_paid_seats seats sub ≡ some (take n seats)
build_paid_seats-pos n seats sub e = elim (Bool-cases (ltb n (length seats))) [
  | inl t ↦ rw e (rw t refl)
  | inr f ↦ rw e (rw f (ap some (sym (take_all n seats (ground (arith, f))))))
]

module _ (v : Env) where
  has_seat_sound :
      (ca : CommitAuthor) (seats : List OrgSeat)
      → has_seat v ca seats ≡ true
      → (s : OrgSeat) × Memᴰ s seats × (v.equal_fold s.email ca.email ≡ true)
  has_seat_sound ca [] h = cc
  has_seat_sound ca (s ∷ seats) h = elim (Bool-cases (v.equal_fold s.email ca.email)) [
    | inl t ↦ (s, head refl, t)
    | inr f ↦ let (x, m, e) = has_seat_sound ca seats (rw f at h) in (x, tail m, e)
  ]

  has_seat_complete :
      (ca : CommitAuthor) (seats : List OrgSeat) (s : OrgSeat)
      → Memᴰ s seats
      → v.equal_fold s.email ca.email ≡ true
      → has_seat v ca seats ≡ true
  has_seat_complete ca [] s m e = elim m [ ]
  has_seat_complete ca (x ∷ seats) s (head same) e = rw⁻¹ same (rw e refl)
  has_seat_complete ca (x ∷ seats) s (tail m) e =
      let rest = has_seat_complete ca seats s m e in
      elim (Bool-cases (v.equal_fold x.email ca.email)) [ inl t ↦ rw t refl | inr f ↦ rw f rest ]

  author-Seated :
      (ca : CommitAuthor) (seats : List OrgSeat)
      → does_commit_author_have_active_sub v ca seats ≡ true
      → Seated v ca seats
  author-Seated ca seats h = elim (Bool-cases (str_eq ca.email "")) [
    | inl t ↦ let no : false ≡ true = rw t at h in cc
    | inr f ↦ (
      λ same. let t = (eq_iff ca.email "").1 same in cc,
      elim (Bool-cases (is_service_email ca.email)) [
        | inl t ↦ inl t
        | inr g ↦ inr (has_seat_sound ca seats (rw (f, g) at h))
      ],
    )
  ]

  Seated-author :
      (ca : CommitAuthor) (seats : List OrgSeat)
      → Seated v ca seats
      → does_commit_author_have_active_sub v ca seats ≡ true
  Seated-author ca seats (some_email, why) = elim (Bool-cases (str_eq ca.email "")) [
    | inl t ↦ absurd (some_email ((eq_iff ca.email "").0 t))
    | inr f ↦ elim (Bool-cases (is_service_email ca.email)) [
      | inl t ↦ rw (f, t) refl
      | inr g ↦ elim why [
        | inl t ↦ cc
        | inr (s, m, e) ↦ rw (f, g) (has_seat_complete ca seats s m e)
      ]
    ]
  ]

  pub check_commits_sound :
      (commits : List Commit) (seats : List OrgSeat)
      → check_commits v commits seats ≡ ok tt
      → Covered v commits seats
  check_commits_sound [] seats h = cc
  check_commits_sound (c ∷ commits) seats h =
      elim (Bool-cases (does_commit_author_have_active_sub v c.author seats)) [
        | inl t ↦ (c, head refl, inl (author-Seated c.author seats t))
        | inr f ↦ elim (Bool-cases (does_commit_author_have_active_sub v c.committer seats)) [
          | inl t ↦ (c, head refl, inr (author-Seated c.committer seats t))
          | inr g ↦
              let (x, m, e) = check_commits_sound commits seats (rw (f, g) at h) in (x, tail m, e)
        ]
      ]

  pub check_commits_complete :
      (commits : List Commit) (seats : List OrgSeat) (c : Commit)
      → Memᴰ c commits
      → Seated v c.author seats ⊎ Seated v c.committer seats
      → check_commits v commits seats ≡ ok tt
  check_commits_complete [] seats c m why = elim m [ ]
  check_commits_complete (x ∷ commits) seats c (head same) (inl a) =
      rw⁻¹ same (rw (Seated-author c.author seats a) refl)
  check_commits_complete (x ∷ commits) seats c (head same) (inr a) =
      let accepted = Seated-author c.committer seats a in
      elim (Bool-cases (does_commit_author_have_active_sub v c.author seats)) [
        | inl t ↦ rw⁻¹ same (rw t refl)
        | inr f ↦ rw⁻¹ same (rw f (rw accepted refl))
      ]
  check_commits_complete (x ∷ commits) seats c (tail m) why =
      let rest = check_commits_complete commits seats c m why in
      elim (Bool-cases (does_commit_author_have_active_sub v x.author seats)) [
        | inl t ↦ rw t refl
        | inr f ↦ elim (Bool-cases (does_commit_author_have_active_sub v x.committer seats)) [
          | inl t ↦ rw f (rw t refl)
          | inr g ↦ rw f (rw g rest)
        ]
      ]
