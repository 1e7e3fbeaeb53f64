-- ===== src/Policy/Organization/Access.antt =====
-- Who is let through, against what the cache and the provider say.
use mathlib.Core.Option.{some-injective}
use golangci_api.Base.{
  subst, ◌≡◌, ◌↔◌, ◌⊎◌, inl, inr, refl, sym, ap, Bool, true, false, Option, none, some, ◌==◌,
  ==_iff, str_eq, eq_iff, if◌then◌else◌, Bool-cases,
}
use golangci_api.Errors.{Result, ok, err, not_org_admin, message}
use golangci_api.Models.Org.{Org, is_fake}
use golangci_api.Policy.Organization.{
  Env, OrgMembership, Cache, FetchOutcome, stored, fetch_fresh, not_stored, cached_or_fresh,
  refetched, rechecked, checked, fetch, check_personal_org, admin_verdict, member_verdict,
  with_provider, check_is_admin, check_is_member, check_access, check_can_modify,
}

module _ (v : Env) (org : Org) where
  -- The cache or the provider says that the caller is a member.
  abbrev pub Member : Cache → Type 0
  Member c =
      (om : OrgMembership) × ((v.cache_get c ≡ ok (some om))
        ⊎ (v.get_org_membership_by_name org.name ≡ ok om))

  -- One of them says that the caller is an administrator.
  abbrev pub Admin : Cache → Type 0
  Admin c =
      (om : OrgMembership) × ((v.cache_get c ≡ ok (some om))
        ⊎ (v.get_org_membership_by_name org.name ≡ ok om))
      × (om.is_admin ≡ true)

  abbrev pub Allowed : Cache → Type 0
  Allowed c =
      ((is_fake org ≡ true) × (v.provider_user_id ≡ org.provider_personal_user_id))
      ⊎ ((is_fake org ≡ false)
          × (v.build_provider ≡ ok tt)
          × (v.provider_name ≡ org.provider)
          × (((v.member_can_modify_org ≡ true) × Member c)
              ⊎ ((v.member_can_modify_org ≡ false) × Admin c)))

  -- The verdict on a membership that was read.
  admin_of :
      (om : OrgMembership) (c : Cache)
      → (admin_verdict v org (ok om, c)).0 ≡ some (ok tt)
      → om.is_admin ≡ true
  admin_of om c h = elim (Bool-cases om.is_admin) [
    | inl t ↦ t
    | inr f ↦ let no : some (err not_org_admin) ≡ some (ok tt) = rw f at h in cc
  ]

  fresh-Admin :
      (r : Result OrgMembership) (c : Cache)
      → v.get_org_membership_by_name org.name ≡ r
      → (admin_verdict v org (checked v org (not_stored v org r c))).0 ≡ some (ok tt)
      → Admin c
  fresh-Admin (err e) c q h = cc
  fresh-Admin (ok om) c q h = (om, inr q, admin_of om c h)

  stored-Admin :
      (r : Result OrgMembership) (c : Cache)
      → v.get_org_membership_by_name org.name ≡ r
      → (admin_verdict v org (checked v org (stored v org r c))).0 ≡ some (ok tt)
      → Admin c
  stored-Admin (err e) c q h = cc
  stored-Admin (ok om) c q h = (om, inr q, admin_of om (v.cache_set om c) h)

  refetched-Admin :
      (om : OrgMembership) (r : Result OrgMembership) (c : Cache)
      → om.is_admin ≡ false
      → v.get_org_membership_by_name org.name ≡ r
      → (admin_verdict v org (refetched v org om (stored v org r c))).0 ≡ some (ok tt)
      → Admin c
  refetched-Admin om (err e) c f q h = let t = admin_of om c h in cc
  refetched-Admin om (ok om') c f q h = (om', inr q, admin_of om' (v.cache_set om' c) h)

  rechecked-Admin :
      (b : Bool) (om : OrgMembership) (c : Cache)
      → om.is_admin ≡ b
      → v.cache_get c ≡ ok (some om)
      → (admin_verdict v org (rechecked v org b om c)).0 ≡ some (ok tt)
      → Admin c
  rechecked-Admin true om c t q h = (om, inl q, t)
  rechecked-Admin false om c f q h =
      refetched-Admin om (v.get_org_membership_by_name org.name) c f refl h

  sound-Admin : (c : Cache) → (admin_verdict v org (fetch v org c)).0 ≡ some (ok tt) → Admin c
  sound-Admin c h = go (v.cache_get c) refl h
    where
      go :
          (g : Result (Option OrgMembership))
          → v.cache_get c ≡ g
          → (admin_verdict v org (checked v org (cached_or_fresh v org g c))).0 ≡ some (ok tt)
          → Admin c
      go (err e) q k = fresh-Admin (v.get_org_membership_by_name org.name) c refl k
      go (ok none) q k = stored-Admin (v.get_org_membership_by_name org.name) c refl k
      go (ok (some om)) q k = rechecked-Admin om.is_admin om c refl q k

  says-Admin :
      (om : OrgMembership) (c : Cache)
      → om.is_admin ≡ true
      → (admin_verdict v org (ok om, c)).0 ≡ some (ok tt)
  says-Admin om c t = rw t refl

  rechecked_says-Admin :
      (b : Bool) (om om' : OrgMembership) (c : Cache)
      → om'.is_admin ≡ b
      → om.is_admin ≡ true
      → v.get_org_membership_by_name org.name ≡ ok om
      → (admin_verdict v org (rechecked v org b om' c)).0 ≡ some (ok tt)
  rechecked_says-Admin true om om' c t' t fresh = says-Admin om' c t'
  rechecked_says-Admin false om om' c t' t fresh = rw fresh (says-Admin om (v.cache_set om c) t)

  complete-Admin : (c : Cache) → Admin c → (admin_verdict v org (fetch v org c)).0 ≡ some (ok tt)
  complete-Admin c (om, inl cached, t) = rw cached (
      subst (λ b. (admin_verdict v org (rechecked v org b om c)).0 ≡ some (ok tt)) (sym t)
        (says-Admin om c t))
  complete-Admin c (om, inr fresh, t) = go (v.cache_get c)
    where
      go :
          (g : Result (Option OrgMembership))
          → (admin_verdict v org (checked v org (cached_or_fresh v org g c))).0 ≡ some (ok tt)
      go (err e) = rw fresh (says-Admin om c t)
      go (ok none) = rw fresh (says-Admin om (v.cache_set om c) t)
      go (ok (some om')) = rechecked_says-Admin om'.is_admin om om' c refl t fresh

  fresh-Member :
      (r : Result OrgMembership) (c c' : Cache)
      → v.get_org_membership_by_name org.name ≡ r
      → ((member_verdict v org (checked v org (not_stored v org r c))).0 ≡ some (ok tt))
        ⊎ ((member_verdict v org (checked v org (stored v org r c))).0 ≡ some (ok tt))
      → Member c'
  fresh-Member (err e) c c' q (inl h) = cc
  fresh-Member (err e) c c' q (inr h) = cc
  fresh-Member (ok om) c c' q h = (om, inr q)

  sound-Member : (c : Cache) → (member_verdict v org (fetch v org c)).0 ≡ some (ok tt) → Member c
  sound-Member c h = go (v.cache_get c) refl h
    where
      go :
          (g : Result (Option OrgMembership))
          → v.cache_get c ≡ g
          → (member_verdict v org (checked v org (cached_or_fresh v org g c))).0 ≡ some (ok tt)
          → Member c
      go (err e) q k = fresh-Member (v.get_org_membership_by_name org.name) c c refl (inl k)
      go (ok none) q k = fresh-Member (v.get_org_membership_by_name org.name) c c refl (inr k)
      go (ok (some om)) q k = (om, inl q)

  refetched-Member :
      (om : OrgMembership) (o : FetchOutcome)
      → (member_verdict v org (refetched v org om o)).0 ≡ some (ok tt)
  refetched-Member om (err e, c) = refl
  refetched-Member om (ok (om', b), c) = refl

  rechecked-Member :
      (b : Bool) (om : OrgMembership) (c : Cache)
      → (member_verdict v org (rechecked v org b om c)).0 ≡ some (ok tt)
  rechecked-Member true om c = refl
  rechecked-Member false om c = refetched-Member om (fetch_fresh v org c)

  complete-Member : (c : Cache) → Member c → (member_verdict v org (fetch v org c)).0 ≡ some (ok tt)
  complete-Member c (om, inl cached) = rw cached (rechecked-Member om.is_admin om c)
  complete-Member c (om, inr fresh) = go (v.cache_get c)
    where
      go :
          (g : Result (Option OrgMembership))
          → (member_verdict v org (checked v org (cached_or_fresh v org g c))).0 ≡ some (ok tt)
      go (err e) = rw fresh refl
      go (ok none) = rw fresh refl
      go (ok (some om')) = rechecked-Member om'.is_admin om' c

module _ (v : Env) (org : Org) where
  personal_iff :
      (check_personal_org v org ≡ ok tt) ↔ (v.provider_user_id ≡ org.provider_personal_user_id)
  personal_iff = elim (Bool-cases (v.provider_user_id == org.provider_personal_user_id)) [
    | inl t ↦ (λ h. (==_iff v.provider_user_id org.provider_personal_user_id).0 t, λ e. rw t refl)
    | inr f ↦ (
      λ h.
          let no : err (message "this is a personal org and this user doesn't own it") ≡ ok tt =
            rw f at h in
          cc,
      λ e. let t = (==_iff v.provider_user_id org.provider_personal_user_id).1 e in cc,
    )
  ]

  -- The two checks share their beginning.
  abbrev guarded :
      (Cache → Option (Result (Unit {0})) × Cache) → Cache → Option (Result (Unit {0})) × Cache
  guarded rest c =
      if is_fake org
      then (some (check_personal_org v org), c)
      else with_provider v org rest v.build_provider c

  abbrev Guarded : Type 0 → Type 0
  Guarded P =
      ((is_fake org ≡ true) × (v.provider_user_id ≡ org.provider_personal_user_id))
      ⊎ ((is_fake org ≡ false) × (v.build_provider ≡ ok tt) × (v.provider_name ≡ org.provider) × P)

  with_provider_sound :
      (rest : Cache → Option (Result (Unit {0})) × Cache) (r : Result (Unit {0})) (c : Cache)
      → (with_provider v org rest r c).0 ≡ some (ok tt)
      → (r ≡ ok tt) × (v.provider_name ≡ org.provider) × ((rest c).0 ≡ some (ok tt))
  with_provider_sound rest (err e) c h = cc
  with_provider_sound rest (ok _) c h = elim (Bool-cases (str_eq v.provider_name org.provider)) [
    | inl t ↦ (refl, (eq_iff v.provider_name org.provider).0 t, rw t at h)
    | inr f ↦ let no : none ≡ some (ok tt) = rw f at h in cc
  ]

  guarded_iff :
      (P : Type 0) (rest : Cache → Option (Result (Unit {0})) × Cache) (c : Cache)
      → ((rest c).0 ≡ some (ok tt)) ↔ P
      → ((guarded rest c).0 ≡ some (ok tt)) ↔ Guarded P
  guarded_iff P rest c p = elim (Bool-cases (is_fake org)) [
    | inl t ↦ (
      λ h. inl (t, personal_iff.0 (some-injective _ _ (rw t at h))),
      λ g. elim g [ inl (t', own) ↦ rw t (ap some (personal_iff.1 own)) | inr (f, b, n, x) ↦ cc ],
    )
    | inr f ↦ (
      λ h.
          let (b, n, k) = with_provider_sound rest v.build_provider c (rw f at h) in
          inr (f, b, n, p.0 k),
      λ g. elim g [
        | inl (t, own) ↦ cc
        | inr (f', b, n, x) ↦ rw f (rw b (rw ((eq_iff v.provider_name org.provider).1 n) (p.1 x)))
      ],
    )
  ]

  check_access_iff :
      (b : Bool) (c : Cache)
      → v.member_can_modify_org ≡ b
      → ((check_access v org b c).0 ≡ some (ok tt)) ↔ Allowed v org c
  unfolding check_access check_is_admin check_is_member
  check_access_iff true c flag =
      let base =
        guarded_iff (Member v org c) (λ c₁. member_verdict v org (fetch v org c₁)) c
          (sound-Member v org c, complete-Member v org c) in
      (
        λ h. elim (base.0 h) [
          | inl own ↦ inl own
          | inr (r, b, n, m) ↦ inr (r, b, n, inl (flag, m))
        ],
        λ g. base.1 (elim g [
          | inl own ↦ inl own
          | inr (r, b, n, inl (same, m)) ↦ inr (r, b, n, m)
          | inr (r, b, n, inr (differs, m)) ↦ cc
        ]),
      )
  check_access_iff false c flag =
      let base =
        guarded_iff (Admin v org c) (λ c₁. admin_verdict v org (fetch v org c₁)) c
          (sound-Admin v org c, complete-Admin v org c) in
      (
        λ h. elim (base.0 h) [
          | inl own ↦ inl own
          | inr (r, b, n, m) ↦ inr (r, b, n, inr (flag, m))
        ],
        λ g. base.1 (elim g [
          | inl own ↦ inl own
          | inr (r, b, n, inr (same, m)) ↦ inr (r, b, n, m)
          | inr (r, b, n, inl (differs, m)) ↦ cc
        ]),
      )

  -- The settings of a personal organization may be changed by its owner; those of another one by a
  -- caller whose provider is that of the organization, if the cache or the provider says that the
  -- caller is a member or, if the configuration asks for it, an administrator. An administrator
  -- that the cache does not know yet is let through by the second read.
  pub check_can_modify_iff :
      (c : Cache) → ((check_can_modify v org c).0 ≡ some (ok tt)) ↔ Allowed v org c
  unfolding check_can_modify
  check_can_modify_iff c = check_access_iff v.member_can_modify_org c refl
