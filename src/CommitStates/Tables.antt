-- ===== src/CommitStates/Tables.antt =====
-- Tables of repositories whose rows follow the protocol.
use mathlib.Core.Option
use golangci_api.Base.{
  ℕ, ◌≡◌, refl, sym, ◌∙◌, ap, subst, ◌⊎◌, inl, inr, Bool, true, List, Option, none, some,
  Bool-cases, if◌then◌else◌, ◌==◌, ==_iff, &&-right, ◌||◌,
}
use golangci_api.Errors.{Result, ok, err}
use golangci_api.Sql.{Sql, row_at, update_where, row_at-update_where, updates-eq-ok}
use golangci_api.Models.Repo.{
  Repo, CommitState, create_init, create_sent_to_queue, create_created_repo, create_done,
  create_rollback_init, create_rollback_done, delete_init, delete_sent_to_queue, delete_done, place,
  same_state, in_state, in_states, is_live, key,
}
use golangci_api.CommitStates.Protocol.{
  Edge, Reach, edge, Final, Follows, Follows-refl, Follows-trans,
}

abbrev pub FollowsAt : Option Repo → Option Repo → Type 0
FollowsAt none o = o ≡ none
FollowsAt (some r) o = (r' : Repo) × (o ≡ some r') × Follows r r'

-- The row of each key follows, and no row is added or lost.
abbrev pub TableFollows : List Repo → List Repo → Type 0
TableFollows t t' = (j : ℕ) → FollowsAt (row_at key j t) (row_at key j t')

FollowsAt-refl : (o : Option Repo) → FollowsAt o o
FollowsAt-refl none = refl
FollowsAt-refl (some r) = (r, refl, Follows-refl r)

FollowsAt-trans : (o p q : Option Repo) → FollowsAt o p → FollowsAt p q → FollowsAt o q
FollowsAt-trans none p q a b = subst (λ x. FollowsAt x q) a b
FollowsAt-trans (some r) p q (r', e, f) b =
    let (r'', e', f') = subst (λ x. FollowsAt x q) e b in (r'', e', Follows-trans r r' r'' f f')

pub TableFollows-refl : (t : List Repo) → TableFollows t t
TableFollows-refl t j = FollowsAt-refl (row_at key j t)

pub TableFollows-trans :
    (t u v : List Repo) → TableFollows t u → TableFollows u v → TableFollows t v
TableFollows-trans t u v a b j =
    FollowsAt-trans (row_at key j t) (row_at key j u) (row_at key j v) (a j) (b j)

-- An update whose effect on each row that it selects is a move of the protocol.
abbrev pub Moves : (Repo → Bool) → (Repo → Repo) → Type 0
Moves p f = ((r : Repo) → (f r).id ≡ r.id) × ((r : Repo) → p r ≡ true → Follows r (f r))

moved-FollowsAt :
    (p : Repo → Bool) (f : Repo → Repo) (o : Option Repo)
    → Moves p f
    → FollowsAt o (Option.map (λ r. if p r then f r else r) o)
moved-FollowsAt p f none m = refl
moved-FollowsAt p f (some r) m = elim (Bool-cases (p r)) [
  | inl t ↦ rw t (f r, refl, m.1 r t)
  | inr n ↦ rw n (r, refl, Follows-refl r)
]

pub update_where-TableFollows :
    (p : Repo → Bool) (f : Repo → Repo) (t : List Repo)
    → Moves p f
    → TableFollows t (update_where p f t)
update_where-TableFollows p f t m j =
    rw (row_at-update_where key p f j t m.0) (moved-FollowsAt p f (row_at key j t) m)

-- The rows after a call of the database, which are the old ones if it fails.
abbrev pub rows_after : List Repo → Result (ℕ × List Repo) → List Repo
rows_after t (err e) = t
rows_after t (ok (n, t')) = t'

pub updates-TableFollows :
    (db : Sql Repo) (p : Repo → Bool) (f : Repo → Repo) (t : List Repo)
    → Moves p f
    → (x : Result (ℕ × List Repo)) → db.updates p f t ≡ x
    → TableFollows t (rows_after t x)
updates-TableFollows db p f t m (err e) q = TableFollows-refl t
updates-TableFollows db p f t m (ok (n, t')) q =
    rw (updates-eq-ok db p f t q).1 (update_where-TableFollows p f t m)

state_at : ℕ → CommitState
state_at i =
    if i == 0
    then create_init
    else if i == 1
    then create_sent_to_queue
    else if i == 2
    then create_created_repo
    else if i == 3
    then create_done
    else if i == 4
    then create_rollback_init
    else if i == 5
    then create_rollback_done
    else if i == 6
    then delete_init
    else if i == 7
    then delete_sent_to_queue
    else delete_done

state_at-place : (s : CommitState) → state_at (place s) ≡ s
unfolding state_at
state_at-place create_init = refl
state_at-place create_sent_to_queue = refl
state_at-place create_created_repo = refl
state_at-place create_done = refl
state_at-place create_rollback_init = refl
state_at-place create_rollback_done = refl
state_at-place delete_init = refl
state_at-place delete_sent_to_queue = refl
state_at-place delete_done = refl

pub same_state-only : (s t : CommitState) → same_state s t ≡ true → s ≡ t
same_state-only s t h =
    sym (state_at-place s) ∙ ap state_at ((==_iff (place s) (place t)).0 h) ∙ state_at-place t

-- What an assignment keeps of a row besides its state.
abbrev pub Kept : (Repo → Repo) → Type 0
Kept f =
    (r : Repo)
    → ((f r).id ≡ r.id)
      × ((f r).user_id ≡ r.user_id)
      × ((f r).provider_id ≡ r.provider_id)
      × ((is_live (f r) ≡ is_live r) ⊎ Final (f r).commit_state)

Kept-Follows :
    (f : Repo → Repo) (r : Repo)
    → Kept f
    → Reach r.commit_state (f r).commit_state
    → Follows r (f r)
Kept-Follows f r k p = let (i, u, v, l) = k r in (p, i, u, v, l)

pub in_state-Moves :
    (i : ℕ) (s t : CommitState) (f : Repo → Repo)
    → Edge s t
    → ((r : Repo) → (f r).commit_state ≡ t)
    → Kept f
    → Moves (in_state i s) f
in_state-Moves i s t f e to k = (
  λ r. (k r).0,
  λ r h.
      let from : r.commit_state ≡ s =
        same_state-only r.commit_state s (&&-right _ _ (&&-right _ _ h)) in
      Kept-Follows f r k (
        subst (λ x. Reach r.commit_state x) (sym (to r))
          (subst (λ x. Reach x t) (sym from) (edge e))),
)

either-Reach :
    (x s₁ s₂ t : CommitState)
    → Edge s₁ t
    → Edge s₂ t
    → (same_state x s₁ || same_state x s₂) ≡ true
    → Reach x t
either-Reach x s₁ s₂ t e₁ e₂ h = elim (Bool-cases (same_state x s₁)) [
  | inl a ↦ subst (λ y. Reach y t) (sym (same_state-only x s₁ a)) (edge e₁)
  | inr a ↦ subst (λ y. Reach y t) (sym (same_state-only x s₂ (rw a at h))) (edge e₂)
]

pub in_states-Moves :
    (i : ℕ) (s₁ s₂ t : CommitState) (f : Repo → Repo)
    → Edge s₁ t
    → Edge s₂ t
    → ((r : Repo) → (f r).commit_state ≡ t)
    → Kept f
    → Moves (in_states i s₁ s₂) f
in_states-Moves i s₁ s₂ t f e₁ e₂ to k = (
  λ r. (k r).0,
  λ r h. Kept-Follows f r k (
      subst (λ x. Reach r.commit_state x) (sym (to r))
        (either-Reach r.commit_state s₁ s₂ t e₁ e₂ (&&-right _ _ (&&-right _ _ h)))),
)
