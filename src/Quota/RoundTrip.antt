-- ===== src/Quota/RoundTrip.antt =====
-- What a client of QuotaDriver sees after quotas are set or deleted.
use barbican.Shared.{
  ℕ, String, ◌≡◌, refl, ap, ◌∙◌, ◌≢◌, inl, inr, Option, List, [], ◌∷◌, ◌++◌, arith,
}
use mathlib.Core.List.{append-nil}
use barbican.Shared.Int.{ℤ}
use barbican.Shared.Result.{Result, ok, raised}
use barbican.Quota.{
  QuotaError, not_found, Project, ProjectQuotas, Db, Dict, dict_get, one, projects_named,
  get_by_external_project_id,
}
use barbican.Quota.Enforce.{Resource, resource_name, configured_of}
use barbican.Quota.Admin.{new_quotas, quotas_of, update_values, update_rows, keep_or}
use barbican.Quota.Rows.{
  quotas_of-append, quotas_of-update, rows_for, AtMostOne, quotas_named_lem, IsValid,
}
use barbican.Quota.Valid

-- In a valid database the query has one row, or NotFound.
pub get_by_lem :
    (e : String) (db : Db)
    → IsValid db
    → get_by_external_project_id e db ≡ one (rows_for (projects_named e db.projects) db.quotas)
unfolding get_by_external_project_id
get_by_lem e db v = ap one (quotas_named_lem e db.projects db.quotas (v.one_project e))

-- What a resource's column holds after `parsed` is written over the row that was there.
abbrev pub written : Result QuotaError ProjectQuotas → Dict ℤ → Resource → Option ℤ
written (ok old) parsed r = keep_or (configured_of old r) (dict_get (resource_name r) parsed)
written (raised x) parsed r = dict_get (resource_name r) parsed

pub record Configures (e : String) (parsed : Dict ℤ) (before after : Db) : Type 0 where
  pub row : ProjectQuotas
  pub reads : get_by_external_project_id e after ≡ ok row
  pub values :
      (r : Resource) → configured_of row r ≡ written (get_by_external_project_id e before) parsed r
  pub others :
      (e' : String)
      → e' ≢ e
      → get_by_external_project_id e' after ≡ get_by_external_project_id e' before
  pub valid : IsValid after

new_values :
    (i : ℕ) (parsed : Dict ℤ) (x : QuotaError) (r : Resource)
    → configured_of (new_quotas i parsed) r ≡ written (raised x) parsed r
unfolding new_quotas
new_values i parsed x Resource.secrets = refl
new_values i parsed x Resource.orders = refl
new_values i parsed x Resource.containers = refl
new_values i parsed x Resource.consumers = refl
new_values i parsed x Resource.cas = refl

updated_values :
    (q : ProjectQuotas) (parsed : Dict ℤ) (r : Resource)
    → configured_of (update_values parsed q) r ≡ written (ok q) parsed r
unfolding update_values
updated_values q parsed Resource.secrets = refl
updated_values q parsed Resource.orders = refl
updated_values q parsed Resource.containers = refl
updated_values q parsed Resource.consumers = refl
updated_values q parsed Resource.cas = refl

module _ (e : String) (db : Db) (p : Project) (found : projects_named e db.projects ≡ p ∷ [])
    (v : IsValid db) where
  -- A write to the rows of one project is not seen under another external id.
  pub other_reads :
      (qs : List ProjectQuotas)
      → IsValid (record db { quotas = qs })
      → ((j : ℕ) → j ≢ p.id → quotas_of j qs ≡ quotas_of j db.quotas)
      → (e' : String) → e' ≢ e
      → get_by_external_project_id e' (record db { quotas = qs }) ≡ get_by_external_project_id e' db
  other_reads qs w same e' ne =
      rw (get_by_lem e' (record db { quotas = qs }) w, get_by_lem e' db v)
        (ap one (go (v.one_project e')))
    where
      go :
          AtMostOne (projects_named e' db.projects)
          → rows_for (projects_named e' db.projects) qs
            ≡ rows_for (projects_named e' db.projects) db.quotas
      go (inl h) = rw h
      go (inr (p', h)) = rw h (same p'.id (λ k. ne (v.ids_differ e' e p' p h found k)))

  -- The project is there and has no row yet.
  pub insert-Configures :
      (parsed : Dict ℤ)
      → quotas_of p.id db.quotas ≡ []
      → Configures e parsed db (Valid.with_row p.id parsed db)
  unfolding new_quotas
  insert-Configures parsed empty = record {
    row = new_quotas p.id parsed;
    reads =
        get_by_lem e (Valid.with_row p.id parsed db) w
        ∙ rw found (ground (arith, quotas_of-append p.id db.quotas (new_quotas p.id parsed)));
    values = λ r. rw (get_by_lem e db v, found, empty) (new_values p.id parsed not_found r);
    others = other_reads (db.quotas ++ new_quotas p.id parsed ∷ []) w λ j h. ground (
      arith,
      quotas_of-append j db.quotas (new_quotas p.id parsed),
      append-nil (quotas_of j db.quotas),
    );
    valid = w;
  }
    where
      w : IsValid (Valid.with_row p.id parsed db)
      w = Valid.with_row-IsValid p.id parsed db empty (v.id_below e p found) v

  -- The project has a row, which is updated.
  pub update-Configures :
      (parsed : Dict ℤ) (q : ProjectQuotas)
      → quotas_of p.id db.quotas ≡ q ∷ []
      → Configures e parsed db (Valid.with_update p.id parsed db)
  update-Configures parsed q old = record {
    row = update_values parsed q;
    reads =
        get_by_lem e (Valid.with_update p.id parsed db) w
        ∙ rw found (ground (arith, quotas_of-update p.id p.id parsed db.quotas));
    values = λ r. rw (get_by_lem e db v, found, old) (updated_values q parsed r);
    others =
        other_reads (update_rows p.id parsed db.quotas) w
          λ j h. ground (arith, quotas_of-update p.id j parsed db.quotas);
    valid = w;
  }
    where
      w : IsValid (Valid.with_update p.id parsed db)
      w = Valid.with_update-IsValid p.id parsed db v
