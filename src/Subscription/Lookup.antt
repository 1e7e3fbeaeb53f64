-- ===== src/Subscription/Lookup.antt =====
-- What `getSubForUpdate` has checked when it returns a subscription.
use golangci_api.Base.{String, ◌≡◌, true, List, some, ◌==◌, ==_iff, subst, &&-right}
use golangci_api.Errors.{
  ok, wrapped, guard, race_condition, >>=-eq-ok, wrapped-eq-ok, guard-eq-ok, ok-injective,
}
use golangci_api.Sql.{
  row_at, Unique, first_where, first_where-row_at, first_where-holds, first-eq-ok,
}
use golangci_api.Models.Org.{Org}
use golangci_api.Models.OrgSub.{OrgSub, is_live, key}
use golangci_api.Subscription.{Deps, Subs, UpdatePayload, of_org, named, get_sub_for_update}

abbrev pub Found : Deps → List Org → String → String → UpdatePayload → Subs → OrgSub → Type 0
Found d orgs name provider p w sub =
    (org : Org) × (first_where (named name provider) orgs ≡ ok org)
    × (org.version ≡ p.org_version)
    × (d.check_can_modify org ≡ ok tt)
    × (first_where (of_org org.id) w.rows ≡ ok sub)
    × (sub.version ≡ p.version)

module _ (d : Deps) (orgs : List Org) (name provider : String) (p : UpdatePayload) (w : Subs) where
  pub get_sub_for_update-Found :
      {sub : OrgSub}
      → get_sub_for_update d orgs name provider p w ≡ ok sub
      → Found d orgs name provider p w sub
  unfolding get_sub_for_update
  get_sub_for_update-Found h =
      let (org, e₁, h₁) = >>=-eq-ok (wrapped (d.org_db.first (named name provider) orgs)) _ h in
      let (_, e₂, h₂) = >>=-eq-ok (guard (org.version == p.org_version) race_condition) _ h₁ in
      let (_, e₃, h₃) = >>=-eq-ok (wrapped (d.check_can_modify org)) _ h₂ in
      let (sub', e₄, h₄) = >>=-eq-ok (wrapped (d.sub_db.first (of_org org.id) w.rows)) _ h₃ in
      let (_, e₅, h₅) = >>=-eq-ok (guard (sub'.version == p.version) race_condition) _ h₄ in
      (
        org,
        first-eq-ok d.org_db _ orgs (wrapped-eq-ok _ e₁),
        (==_iff _ _).0 (guard-eq-ok _ _ e₂),
        wrapped-eq-ok _ e₃,
        subst (λ s. first_where (of_org org.id) w.rows ≡ ok s) (ok-injective h₅)
            (first-eq-ok d.sub_db _ w.rows (wrapped-eq-ok _ e₄)),
        subst (λ s. s.version ≡ p.version) (ok-injective h₅) ((==_iff _ _).0 (guard-eq-ok _ _ e₅)),
      )

  -- The subscription that is found is the row of its id.
  pub Found-row_at :
      {sub : OrgSub}
      → Found d orgs name provider p w sub
      → Unique key w.rows
      → (row_at key sub.id w.rows ≡ some sub) × (is_live sub ≡ true)
  Found-row_at {sub} (org, _, _, _, first, _) u = (
    first_where-row_at key (of_org org.id) w.rows u first,
    &&-right _ _ (first_where-holds (of_org org.id) w.rows first),
  )
