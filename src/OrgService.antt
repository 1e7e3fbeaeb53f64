-- ===== src/OrgService.antt =====
-- pkg/api/services/organization/service.go: reading and changing the settings of an organization.
pub mod Requests
mod Examples
use golangci_api.Base.{ℕ, String, Bool, ◌&&◌, List, Option, none, some, ◌==◌, str_eq, if◌then◌else◌}
use golangci_api.Errors.{Error, Result, ok, err, wrap, race_condition}
use golangci_api.Sql.{Sql}
use golangci_api.Models.Org.{Org, OrgSeat, is_live, next_version, update_required}
use golangci_api.Policy.Organization.{Cache, check_can_modify}
use golangci_api.Policy.Organization as Policy

pub record UpdatePayload : Type 0 where
  pub settings : List OrgSeat
  pub version : ℕ

pub record World : Type 0 where
  pub orgs : List Org
  pub cache : Cache

pub record Deps : Type 0 where
  pub org_db : Sql Org
  pub policy : Policy.Env

-- NewOrgQuerySet(rc.DB).NameEq(reqOrg.Name).ProviderEq(reqOrg.Provider)
abbrev pub named : String → String → Org → Bool
named name provider o = str_eq o.name name && (str_eq o.provider provider && is_live o)

abbrev pub named_at : String → String → ℕ → Org → Bool
named_at name provider version o = named name provider o && o.version == version

-- The settings are stored as JSON; the two settings of a structure that has been read are never
-- refused by `MarshalSettings`.
abbrev pub set_settings : List OrgSeat → ℕ → Org → Org
set_settings settings version o = record o { settings = settings; version = version }

module _ (d : Deps) (name provider : String) where
  pub store_settings : Org → UpdatePayload → World → Result Org × World
  store_settings org p w =
      elim (update_required (
        d.org_db.updates (named_at name provider org.version)
          (set_settings p.settings (next_version org.version)) w.orgs)) [
            | err e ↦ (err (wrap e), w)
            | ok orgs ↦ (
              ok (set_settings p.settings (next_version org.version) org),
              record w { orgs = orgs },
            )
          ]

  abbrev pub returned : Result Org × World → Option (Result Org) × World
  returned (r, w) = (some r, w)

  -- `none` is a panic of the policy.
  abbrev pub update_checked :
      Org → UpdatePayload → World → Option (Result (Unit {0})) × Cache → Option (Result Org) × World
  update_checked org p w (none, c) = (none, record w { cache = c })
  update_checked org p w (some (err e), c) = (some (err (wrap e)), record w { cache = c })
  update_checked org p w (some (ok _), c) = returned (store_settings org p (record w { cache = c }))

  abbrev pub update_found : UpdatePayload → World → Result Org → Option (Result Org) × World
  update_found p w (err e) = (some (err (wrap e)), w)
  update_found p w (ok org) =
      if org.version == p.version
      then update_checked org p w (check_can_modify d.policy org w.cache)
      else (some (err race_condition), w)

  pub update : UpdatePayload → World → Option (Result Org) × World
  unfolding store_settings
  update p w = update_found p w (d.org_db.first (named name provider) w.orgs)

  abbrev pub get_checked :
      Org → World → Option (Result (Unit {0})) × Cache → Option (Result Org) × World
  get_checked org w (none, c) = (none, record w { cache = c })
  get_checked org w (some (err e), c) = (some (err (wrap e)), record w { cache = c })
  get_checked org w (some (ok _), c) = (some (ok org), record w { cache = c })

  abbrev pub get_found : World → Result Org → Option (Result Org) × World
  get_found w (err e) = (some (err (wrap e)), w)
  get_found w (ok org) = get_checked org w (check_can_modify d.policy org w.cache)

  pub get : World → Option (Result Org) × World
  get w = get_found w (d.org_db.first (named name provider) w.orgs)
