-- ===== src/Quota/Admin.antt =====
-- The operations of QuotaDriver in barbican/common/quota.py that read and write the configured
-- quotas, with the repository methods that they call.
use barbican.Shared.{ℕ, suc, String, Option, none, some, List, [], ◌∷◌, ◌++◌, ◌==◌, if◌then◌else◌}
use barbican.Shared.Int.{ℤ}
use barbican.Shared.Result.{Result, ok, raised}
use barbican.Shared.Exec.{Exec, modify, ◌>>=◌, ◌>>◌}
use barbican.Session
use barbican.Session.{Session}
use barbican.Quota.{
  QuotaError, not_found, multiple_results, constraint_check, Project, ProjectQuotas, Db, Dict,
  dict_get, one, projects_named, get_by_external_project_id, extract_project_quotas,
}

abbrev pub Quotas : Type 0 → Type 0
Quotas A = Exec (Session Db) QuotaError A

abbrev pub update_current : (Db → Db) → Session Db → Session Db
update_current f s = record s { current = f s.current }

-- project_repo.create_from: a fresh id, or the unique constraint on `external_id`, where a rollback
-- comes before the error.
unfoldable pub create_project : String → Quotas Project
unfolding projects_named
create_project e s = elim (projects_named e s.current.projects) [
  | [] ↦
      let p : Project = record { id = s.current.next_id; external_id = e } in
      (
        ok p,
        update_current
            (λ db. record db { projects = db.projects ++ p ∷ []; next_id = suc db.next_id }) s,
      )
  | other ∷ rest ↦ (raised constraint_check, Session.rollback s)
]

-- The fallback of get_or_create_project when another thread has just created the project.
unfoldable pub after_create : String → Result QuotaError Project → Quotas Project
unfolding projects_named
after_create e (ok p) s = (ok p, s)
after_create e (raised constraint_check) s = (one (projects_named e s.current.projects), s)
after_create e (raised x) s = (raised x, s)

unfoldable pub found_or_created : String → List Project → Quotas Project
unfolding create_project after_create
found_or_created e [] s = let (r, s') = create_project e s in after_create e r s'
found_or_created e (p ∷ []) s = (ok p, s)
found_or_created e (p ∷ q ∷ rest) s = (raised multiple_results, s)

unfoldable pub get_or_create_project : String → Quotas Project
unfolding found_or_created projects_named
get_or_create_project e s = found_or_created e (projects_named e s.current.projects) s

-- The rows of ProjectQuotas with this project id.
unfoldable pub quotas_of : ℕ → List ProjectQuotas → List ProjectQuotas
quotas_of i [] = []
quotas_of i (q ∷ qs) = if q.project_id == i then q ∷ quotas_of i qs else quotas_of i qs

-- ProjectQuotas(project_id, parsed): `parsed.get(name)` is None where the name is missing.
abbrev pub get_value : String → Dict ℤ → Option ℤ
get_value r parsed = dict_get r parsed

unfoldable pub new_quotas : ℕ → Dict ℤ → ProjectQuotas
unfolding dict_get
new_quotas i parsed = record {
  project_id = i;
  secrets = get_value "secrets" parsed;
  orders = get_value "orders" parsed;
  containers = get_value "containers" parsed;
  consumers = get_value "consumers" parsed;
  cas = get_value "cas" parsed;
}

abbrev pub keep_or : Option ℤ → Option ℤ → Option ℤ
keep_or old none = old
keep_or old (some v) = some v

-- BaseRepo._update_values: only the keys of the dict are written.
unfoldable pub update_values : Dict ℤ → ProjectQuotas → ProjectQuotas
unfolding dict_get
update_values parsed q = record {
  project_id = q.project_id;
  secrets = keep_or q.secrets (get_value "secrets" parsed);
  orders = keep_or q.orders (get_value "orders" parsed);
  containers = keep_or q.containers (get_value "containers" parsed);
  consumers = keep_or q.consumers (get_value "consumers" parsed);
  cas = keep_or q.cas (get_value "cas" parsed);
}

-- The row that the query found is written in place.
unfoldable pub update_rows : ℕ → Dict ℤ → List ProjectQuotas → List ProjectQuotas
unfolding update_values
update_rows i parsed [] = []
update_rows i parsed (q ∷ qs) =
    if q.project_id == i
    then update_values parsed q ∷ update_rows i parsed qs
    else q ∷ update_rows i parsed qs

abbrev pub write_row : ℕ → Dict ℤ → List ProjectQuotas → Quotas Unit
write_row i parsed [] s =
    (ok tt, update_current (λ db. record db { quotas = db.quotas ++ new_quotas i parsed ∷ [] }) s)
write_row i parsed (q ∷ []) s =
    (ok tt, update_current (λ db. record db { quotas = update_rows i parsed db.quotas }) s)
write_row i parsed (q ∷ q' ∷ rest) s = (raised multiple_results, s)

unfoldable pub create_or_update_by_project_id : ℕ → Dict ℤ → Quotas Unit
unfolding quotas_of new_quotas update_rows
create_or_update_by_project_id i parsed s = write_row i parsed (quotas_of i s.current.quotas) s

unfoldable pub set_project_quotas : String → Dict ℤ → Quotas Unit
unfolding ◌>>=◌
set_project_quotas e parsed = do
  project ← get_or_create_project e
  create_or_update_by_project_id project.id parsed
  modify Session.commit

-- `none` where no quotas are configured: `except NotFound: return None`.
abbrev configured_from :
    Result QuotaError ProjectQuotas → Result QuotaError (Option (Dict (Option ℤ)))
configured_from (ok q) = ok (some (extract_project_quotas q))
configured_from (raised not_found) = ok none
configured_from (raised x) = raised x

unfoldable pub get_project_quotas : String → Db → Result QuotaError (Option (Dict (Option ℤ)))
get_project_quotas e db = configured_from (get_by_external_project_id e db)

-- entity.delete of the one row of this project; ProjectQuotas deletes are not soft.
unfoldable pub remove_rows : ℕ → List ProjectQuotas → List ProjectQuotas
remove_rows i [] = []
remove_rows i (q ∷ qs) = if q.project_id == i then remove_rows i qs else q ∷ remove_rows i qs

unfoldable pub delete_project_quotas : String → Quotas Unit
unfolding ◌>>=◌ remove_rows
delete_project_quotas e = do
  q ← λ s. (get_by_external_project_id e s.current, s)
  modify (update_current (λ db. record db { quotas = remove_rows q.project_id db.quotas }))
