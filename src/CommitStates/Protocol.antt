-- ===== src/CommitStates/Protocol.antt =====
-- The moves between the commit states of a repository.
use golangci_api.Base.{◌≡◌, refl, sym, ◌∙◌, subst, ◌⊎◌, inl, inr}
use golangci_api.Models.Repo.{
  Repo, CommitState, create_init, create_sent_to_queue, create_created_repo, create_done,
  create_rollback_init, create_rollback_done, delete_init, delete_sent_to_queue, delete_done,
  is_live,
}

pub data Edge : CommitState → CommitState → Type 0 where
  queued : Edge create_init create_sent_to_queue
  created : Edge create_init create_created_repo
  created_late : Edge create_sent_to_queue create_created_repo
  connected : Edge create_created_repo create_done
  failed : Edge create_init create_rollback_init
  failed_late : Edge create_sent_to_queue create_rollback_init
  rolled_back : Edge create_rollback_init create_rollback_done
  disconnecting : Edge create_done delete_init
  delete_queued : Edge delete_init delete_sent_to_queue
  deleted : Edge delete_init delete_done
  deleted_late : Edge delete_sent_to_queue delete_done

pub data Reach : CommitState → CommitState → Type 0 where
  here : {s : CommitState} → Reach s s
  along : {s t u : CommitState} → Edge s t → Reach t u → Reach s u

pub Reach-trans : {s t u : CommitState} → Reach s t → Reach t u → Reach s u
Reach-trans here q = q
Reach-trans (along e p) q = along e (Reach-trans p q)

pub edge : {s t : CommitState} → Edge s t → Reach s t
edge e = along e here

-- The states that nothing leaves.
pub data Final : CommitState → Type 0 where
  disconnected : Final delete_done
  given_up : Final create_rollback_done

no_edge : {s t : CommitState} → Final s → Edge s t → ⊥
no_edge disconnected e = elim e [ ]
no_edge given_up e = elim e [ ]

pub Reach-Final : {s t : CommitState} → Reach s t → Final s → t ≡ s
Reach-Final here f = refl
Reach-Final (along e p) f = absurd (no_edge f e)

-- A row later: its state was reached by the moves, it is the same repository of the same user, and
-- if it has been deleted meanwhile its state is final.
abbrev pub Follows : Repo → Repo → Type 0
Follows r r' =
    Reach r.commit_state r'.commit_state
    × (r'.id ≡ r.id)
    × (r'.user_id ≡ r.user_id)
    × (r'.provider_id ≡ r.provider_id)
    × ((is_live r' ≡ is_live r) ⊎ Final r'.commit_state)

pub Follows-refl : (r : Repo) → Follows r r
Follows-refl r = (here, refl, refl, refl, inl refl)

live_trans :
    (r q s : Repo)
    → Reach q.commit_state s.commit_state
    → ((is_live q ≡ is_live r) ⊎ Final q.commit_state)
    → ((is_live s ≡ is_live q) ⊎ Final s.commit_state)
    → ((is_live s ≡ is_live r) ⊎ Final s.commit_state)
live_trans r q s p a (inr f) = inr f
live_trans r q s p (inl a) (inl b) = inl (b ∙ a)
live_trans r q s p (inr f) (inl b) = inr (subst Final (sym (Reach-Final p f)) f)

pub Follows-trans : (r q s : Repo) → Follows r q → Follows q s → Follows r s
Follows-trans r q s (p, i, u, v, l) (p', i', u', v', l') =
    (Reach-trans p p', i' ∙ i, u' ∙ u, v' ∙ v, live_trans r q s p' l l')
