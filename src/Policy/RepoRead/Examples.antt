-- ===== src/Policy/RepoRead/Examples.antt =====
-- A user who may read the repository acme/api, and whose grant is cached.
use golangci_api.Base.{◌≡◌, ◌↔◌, sym, [], ◌∷◌}
use golangci_api.Errors.{ok, ok-injective}
use golangci_api.Models.Auth.{Auth, User}
use golangci_api.Policy.RepoRead.{
  UniversalRepo, CacheServer, Answers, has_key, can_read_private_repo,
}
use golangci_api.Policy.RepoRead.Confirmed.{
  Visit, Confirmed, AllConfirmed, visit_key, visit, cache_after, can_read-Confirmed,
}
use golangci_api.Policy.RepoRead.Private.{MayReadPrivate, can_read_private_repo_iff}

abbrev pub server : CacheServer
server = record {
  cache_get = λ k c. ok (has_key k c);
  cache_set = λ k c. ok (k ∷ c);
  cache_get_law = λ k c h. ok-injective h;
  cache_set_law = λ k c h. sym (ok-injective h);
}

abbrev pub shows : Answers
shows = record { build = λ a. ok tt; get_repo_by_name = λ a r. ok tt }

abbrev pub repo : UniversalRepo
repo = record { owner = "acme"; repo = "api" }

abbrev pub ann : Auth
ann = record {
  user_id = 7;
  provider = "github.com";
  login = "ann";
  access_token = "a";
  private_access_token = "p";
}

abbrev pub ann_user : User
ann_user = record { id = 7 }

abbrev first_visit : Visit
first_visit = record { repo = repo; auth = ann; answers = shows }

can_read-Confirmed_example :
    AllConfirmed server
      (visit server first_visit (cache_after server (first_visit ∷ []))).1
      (first_visit ∷ first_visit ∷ [])
    × ((visit server first_visit (cache_after server (first_visit ∷ []))).0 ≡ ok tt
        → Confirmed (visit_key first_visit) (first_visit ∷ first_visit ∷ []))
can_read-Confirmed_example = can_read-Confirmed server first_visit (first_visit ∷ [])

can_read_private_repo_iff_example :
    ((can_read_private_repo server shows "admin" repo (ok (ann, ann_user)) []).0 ≡ ok tt)
    ↔ MayReadPrivate server shows "admin" repo (ok (ann, ann_user)) []
can_read_private_repo_iff_example =
    can_read_private_repo_iff server shows "admin" repo (ok (ann, ann_user)) []
