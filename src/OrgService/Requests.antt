-- ===== src/OrgService/Requests.antt =====
-- What a request about the settings of an organization has done when it returns.
use golangci_api.Base.{
  ℕ, String, ◌≡◌, refl, inl, inr, false, Option, none, some, ◌==◌, ==_iff, arith, Bool-cases,
}
use golangci_api.Errors.{Result, ok, err}
use golangci_api.Sql.{
  row_at, Unique, first_where, count_where, first-eq-ok, first_where-row_at, first_where-holds,
  row_at-update_where,
}
use golangci_api.Models.Org.{Org, key, next_version}
use golangci_api.Policy.Organization.{Cache, check_can_modify}
use golangci_api.Policy.Organization.Access.{Allowed, check_can_modify_iff}
use golangci_api.OrgService.{
  Deps, World, UpdatePayload, named, named_at, set_settings, store_settings, returned,
  update_checked, update_found, update,
}

-- The rows that the request does not name are as before.
abbrev pub OthersKept : String → String → World → World → Type 0
OthersKept name provider w w' =
    (j : ℕ) (o : Org)
    → row_at key j w.orgs ≡ some o
    → named name provider o ≡ false
    → row_at key j w'.orgs ≡ some o

module _ (d : Deps) (name provider : String) (p : UpdatePayload) (w : World) where
  -- The organization was found at the version of the request, and its policy allows the change.
  abbrev pub Permitted : Org → Type 0
  Permitted org =
      (first_where (named name provider) w.orgs ≡ ok org)
      × (org.version ≡ p.version)
      × Allowed d.policy org w.cache

  abbrev pub Updated : Option (Result Org) × World → Type 0
  Updated (some (ok org'), w') =
      (org : Org) × Permitted org
      × (org' ≡ set_settings p.settings (next_version org.version) org)
      × (row_at key org.id w'.orgs ≡ some org')
      × OthersKept name provider w w'
  Updated (some (err e), w') = w'.orgs ≡ w.orgs
  Updated (none, w') = w'.orgs ≡ w.orgs

  store_settings-Updated :
      (org : Org) (c : Cache)
      → Unique key w.orgs
      → Permitted org
      → Updated
          (returned d name provider (store_settings d name provider org p (record w { cache = c })))
  unfolding store_settings
  store_settings-Updated org c u (found, version, allowed) =
      elim (d.org_db.updates_law (named_at name provider org.version)
        (set_settings p.settings (next_version org.version)) w.orgs) [
          | inr (x, e) ↦ rw (e, store_settings) refl
          | inl e ↦
              elim (Bool-cases (count_where (named_at name provider org.version) w.orgs == 0)) [
                | inl z ↦ rw (e, store_settings) (rw z refl)
                | inr nz ↦
                    let holds = first_where-holds (named name provider) w.orgs found in
                    let at = first_where-row_at key (named name provider) w.orgs u found in
                    rw (e, store_settings)
                      (rw nz (
                        org,
                        (found, version, allowed),
                        refl,
                        rw
                            (row_at-update_where key (named_at name provider org.version)
                              (set_settings p.settings (next_version org.version)) org.id w.orgs
                              (λ o. refl))
                            (rw at (ground (arith, holds))),
                        λ j o at' f.
                            rw
                              (row_at-update_where key (named_at name provider org.version)
                                (set_settings p.settings (next_version org.version)) j w.orgs
                                (λ x. refl))
                              (rw at' (ground (arith, f))),
                      ))
              ]
        ]

  update_checked-Updated :
      (org : Org) (r : Option (Result (Unit {0})) × Cache)
      → Unique key w.orgs
      → first_where (named name provider) w.orgs ≡ ok org
      → org.version ≡ p.version
      → (r.0 ≡ some (ok tt) → Allowed d.policy org w.cache)
      → Updated (update_checked d name provider org p w r)
  update_checked-Updated org (none, c) u f v a = refl
  update_checked-Updated org (some (err e), c) u f v a = refl
  update_checked-Updated org (some (ok _), c) u f v a =
      store_settings-Updated org c u (f, v, a refl)

  update_found-Updated :
      (r : Result Org)
      → Unique key w.orgs
      → d.org_db.first (named name provider) w.orgs ≡ r
      → Updated (update_found d name provider p w r)
  update_found-Updated (err e) u q = refl
  update_found-Updated (ok org) u q = elim (Bool-cases (org.version == p.version)) [
    | inr f ↦ rw f refl
    | inl t ↦ rw t (
        update_checked-Updated org (check_can_modify d.policy org w.cache) u
          (first-eq-ok d.org_db (named name provider) w.orgs q) ((==_iff org.version p.version).0 t)
          (check_can_modify_iff d.policy org w.cache).0)
  ]

  -- A change of the settings that is accepted found the organization of that name and provider at
  -- the version of the request, and its policy allows the change; the settings are stored with the
  -- next version, the answer is the row as it is stored, and no row of another name or provider
  -- changes. A refused change, and one whose policy panics, changes no row. Row keys are unique.
  pub update-Updated : Unique key w.orgs → Updated (update d name provider p w)
  unfolding update
  update-Updated u = update_found-Updated (d.org_db.first (named name provider) w.orgs) u refl
