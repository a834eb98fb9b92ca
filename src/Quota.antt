-- ===== src/Quota.antt =====
-- barbican/common/quota.py, the project quota part of barbican/model/repositories.py and
-- get_or_create_project of barbican/common/resources.py. Ids that the database makes are numbers
-- from a counter; external ids and resource names are texts.
pub mod Enforce
pub mod Admin
pub mod Rows
pub mod Valid
pub mod RoundTrip
pub mod SetDelete
mod Tests
use barbican.Shared.{
  ℕ, suc, ◌+◌, String, Bool, true, false, ◌&&◌, ◌||◌, Option, none, some, List, [], ◌∷◌, ◌++◌, map,
  str_eq, ◌==◌, leb, if◌then◌else◌,
}
use barbican.Shared.Int.{ℤ, pos, negsuc, ltb_ℤ, leb_ℤ}
use barbican.Shared.Result.{Result, ok, raised, some_or, ◌>>=◌}

pub data QuotaError : Type 0 where
  not_found multiple_results constraint_check : QuotaError
  key_error : String → QuotaError
  -- external project id, resource type, quota
  quota_reached : String → String → ℤ → QuotaError

-- A Python dict with text keys, in insertion order.
abbrev pub Dict : Type 0 → Type 0
Dict A = List (String × A)

unfoldable pub dict_get : {A : Type 0} → String → Dict A → Option A
dict_get k [] = none
dict_get k ((j, v) ∷ d) = if str_eq j k then some v else dict_get k d

pub record Project : Type 0 where
  pub id : ℕ
  pub external_id : String

-- models.ProjectQuotas; a null column is `none`.
pub record ProjectQuotas : Type 0 where
  pub project_id : ℕ
  pub secrets : Option ℤ
  pub orders : Option ℤ
  pub containers : Option ℤ
  pub consumers : Option ℤ
  pub cas : Option ℤ

pub record Db : Type 0 where
  pub projects : List Project
  pub quotas : List ProjectQuotas
  pub next_id : ℕ

-- CONF.quotas
pub record QuotaConf : Type 0 where
  pub quota_secrets : ℤ
  pub quota_orders : ℤ
  pub quota_containers : ℤ
  pub quota_consumers : ℤ
  pub quota_cas : ℤ

-- query.one() of a query with these rows
abbrev pub one : {A : Type 0} → List A → Result QuotaError A
one [] = raised not_found
one (a ∷ []) = ok a
one (a ∷ b ∷ rest) = raised multiple_results

abbrev pub get_resources : List String
get_resources = "secrets" ∷ "orders" ∷ "containers" ∷ "consumers" ∷ "cas" ∷ []

unfoldable pub get_defaults : QuotaConf → Dict ℤ
get_defaults conf =
    ("secrets", conf.quota_secrets)
    ∷ ("orders", conf.quota_orders)
    ∷ ("containers", conf.quota_containers)
    ∷ ("consumers", conf.quota_consumers)
    ∷ ("cas", conf.quota_cas)
    ∷ []

-- getattr(project_quotas_model, resource), called only with the names of `get_resources`
unfoldable pub column : ProjectQuotas → String → Option ℤ
column q r =
    if str_eq r "secrets"
    then q.secrets
    else if str_eq r "orders"
    then q.orders
    else if str_eq r "containers"
    then q.containers
    else if str_eq r "consumers"
    then q.consumers
    else q.cas

unfoldable pub extract_project_quotas : ProjectQuotas → Dict (Option ℤ)
unfolding column
extract_project_quotas q = map (λ r. (r, column q r)) get_resources

-- The value that a resource ends up with: the configured one, or else the default.
abbrev pub effective_value : Dict ℤ → String → Option ℤ → Result QuotaError ℤ
effective_value defaults r (some v) = ok v
effective_value defaults r none = some_or (dict_get r defaults) (key_error r)

abbrev pub cons_value :
    String → Result QuotaError ℤ → Result QuotaError (Dict ℤ) → Result QuotaError (Dict ℤ)
cons_value r (ok v) (ok d) = ok ((r, v) ∷ d)
cons_value r (ok v) (raised x) = raised x
cons_value r (raised x) rest = raised x

unfoldable pub merge_defaults : Dict ℤ → Dict (Option ℤ) → Result QuotaError (Dict ℤ)
merge_defaults defaults [] = ok []
merge_defaults defaults ((r, v) ∷ rest) =
    cons_value r (effective_value defaults r v) (merge_defaults defaults rest)

unfoldable pub compute_effective_quotas : QuotaConf → Dict (Option ℤ) → Result QuotaError (Dict ℤ)
unfolding get_defaults merge_defaults dict_get
compute_effective_quotas conf configured = merge_defaults (get_defaults conf) configured

-- ProjectRepo.find_by_external_project_id: the rows, and the query's `one`
unfoldable pub projects_named : String → List Project → List Project
projects_named e [] = []
projects_named e (p ∷ ps) =
    if str_eq p.external_id e then p ∷ projects_named e ps else projects_named e ps

unfoldable pub has_project : ℕ → List Project → Bool
has_project i [] = false
has_project i (p ∷ ps) = p.id == i || has_project i ps

-- The rows of ProjectQuotas joined to a project with this external id; project ids are unique.
unfoldable pub quotas_named : String → List Project → List ProjectQuotas → List ProjectQuotas
unfolding projects_named has_project
quotas_named e ps [] = []
quotas_named e ps (q ∷ qs) =
    if has_project q.project_id (projects_named e ps)
    then q ∷ quotas_named e ps qs
    else quotas_named e ps qs

unfoldable pub get_by_external_project_id : String → Db → Result QuotaError ProjectQuotas
unfolding quotas_named
get_by_external_project_id e db = one (quotas_named e db.projects db.quotas)

-- `except NotFound: defaults  else: merged`
abbrev effective_from : QuotaConf → Result QuotaError ProjectQuotas → Result QuotaError (Dict ℤ)
effective_from conf (ok q) = compute_effective_quotas conf (extract_project_quotas q)
effective_from conf (raised not_found) = ok (get_defaults conf)
effective_from conf (raised x) = raised x

unfoldable pub get_effective_quotas : QuotaConf → String → Db → Result QuotaError (Dict ℤ)
get_effective_quotas conf e db = effective_from conf (get_by_external_project_id e db)

unfoldable pub is_unlimited_value : ℤ → Bool
is_unlimited_value v = leb_ℤ v (negsuc 0)

unfoldable pub is_disabled_value : ℤ → Bool
is_disabled_value (pos v) = v == 0
is_disabled_value (negsuc v) = false
