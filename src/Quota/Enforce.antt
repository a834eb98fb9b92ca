-- ===== src/Quota/Enforce.antt =====
-- QuotaEnforcer of barbican/common/quota.py: its check, and what it lets through.
use barbican.Shared.{
  ℕ, String, ◌≡◌, refl, ◌∙◌, Bool, true, false, Option, none, some, ◌||◌, arith, if◌then◌else◌,
}
use barbican.Shared.Int.{ℤ, pos, negsuc, leb_ℤ, ltb_ℤ}
use barbican.Shared.Result.{Result, ok, raised, some_or, ◌>>=◌}
use barbican.Quota.{
  QuotaError, not_found, key_error, quota_reached, QuotaConf, Project, ProjectQuotas, Db, dict_get,
  get_by_external_project_id, get_defaults, extract_project_quotas, compute_effective_quotas,
  effective_from, get_effective_quotas, is_unlimited_value, is_disabled_value,
}

-- The three branches of `enforce` on the quota that applies; `count` is resource_repo.get_count.
unfoldable pub is_reached : ℤ → ℕ → Bool
unfolding is_unlimited_value is_disabled_value
is_reached quota count =
    if is_unlimited_value quota
    then false
    else if is_disabled_value quota
    then true
    else leb_ℤ quota (pos count)

unfoldable pub enforce :
    QuotaConf → Db → (String → ℕ → ℕ) → String → Project → Result QuotaError Unit
unfolding is_reached
enforce conf db get_count resource_type project = do
  quotas ← get_effective_quotas conf project.external_id db
  quota ← some_or (dict_get resource_type quotas) (key_error resource_type)
  if is_reached quota (get_count resource_type project.id)
      then raised (quota_reached project.external_id resource_type quota)
      else ok tt

-- The resources that a quota can constrain, and what applies to each.
pub data Resource : Type 0 where
  secrets orders containers consumers cas : Resource

abbrev pub resource_name : Resource → String
resource_name secrets = "secrets"
resource_name orders = "orders"
resource_name containers = "containers"
resource_name consumers = "consumers"
resource_name cas = "cas"

abbrev pub default_of : QuotaConf → Resource → ℤ
default_of conf secrets = conf.quota_secrets
default_of conf orders = conf.quota_orders
default_of conf containers = conf.quota_containers
default_of conf consumers = conf.quota_consumers
default_of conf cas = conf.quota_cas

abbrev pub configured_of : ProjectQuotas → Resource → Option ℤ
configured_of q secrets = q.secrets
configured_of q orders = q.orders
configured_of q containers = q.containers
configured_of q consumers = q.consumers
configured_of q cas = q.cas

abbrev pub or_default : ℤ → Option ℤ → ℤ
or_default d none = d
or_default d (some v) = v

-- What the project may still create, said with one rule: unlimited, or fewer than the quota.
abbrev pub verdict : ℤ → ℕ → String → String → Result QuotaError Unit
verdict quota count e r =
    if ltb_ℤ quota (pos 0) || ltb_ℤ (pos count) quota
    then ok tt
    else raised (quota_reached e r quota)

verdict_of_reached :
    (quota : ℤ) (count : ℕ) (e r : String)
    → (if is_reached quota count then raised (quota_reached e r quota) else ok tt)
      ≡ verdict quota count e r
unfolding is_reached
verdict_of_reached (pos q) count e r = ground arith
verdict_of_reached (negsuc q) count e r = ground arith

module _ (conf : QuotaConf) where
  default_lookup :
      (r : Resource) → dict_get (resource_name r) (get_defaults conf) ≡ some (default_of conf r)
  unfolding dict_get get_defaults
  default_lookup secrets = refl
  default_lookup orders = refl
  default_lookup containers = refl
  default_lookup consumers = refl
  default_lookup cas = refl

  -- Merging never misses a default, and each resource reads its own column.
  effective_lookup :
      {A : Type 0} (q : ProjectQuotas) (r : Resource) (f : ℤ → Result QuotaError A)
      → (compute_effective_quotas conf (extract_project_quotas q) >>= λ quotas.
          some_or (dict_get (resource_name r) quotas) (key_error (resource_name r)) >>= f)
        ≡ f (or_default (default_of conf r) (configured_of q r))
  unfolding compute_effective_quotas extract_project_quotas dict_get
  effective_lookup q secrets f = ground arith
  effective_lookup q orders f = ground arith
  effective_lookup q containers f = ground arith
  effective_lookup q consumers f = ground arith
  effective_lookup q cas f = ground arith

-- The quota that applies to a project's resource, from the outcome of reading its row.
abbrev pub applicable : QuotaConf → Resource → Result QuotaError ProjectQuotas → Result QuotaError ℤ
applicable conf r (ok q) = ok (or_default (default_of conf r) (configured_of q r))
applicable conf r (raised not_found) = ok (default_of conf r)
applicable conf r (raised x) = raised x

module _ (conf : QuotaConf) (get_count : String → ℕ → ℕ) (r : Resource) (p : Project) where
  abbrev name : String
  name = resource_name r

  abbrev count : ℕ
  count = get_count name p.id

  abbrev check : ℤ → Result QuotaError Unit
  check quota =
      if is_reached quota count then raised (quota_reached p.external_id name quota) else ok tt

  enforce_row :
      (row : Result QuotaError ProjectQuotas)
      → (effective_from conf row >>= λ quotas.
          some_or (dict_get name quotas) (key_error name) >>= check)
        ≡ (applicable conf r row >>= λ q. verdict q count p.external_id name)
  enforce_row (ok q) =
      effective_lookup conf q r check
      ∙ verdict_of_reached (or_default (default_of conf r) (configured_of q r)) count p.external_id
          name
  enforce_row (raised not_found) =
      rw (default_lookup conf r) (verdict_of_reached (default_of conf r) count p.external_id name)
  enforce_row (raised x) = refl

-- For every resource type and every project, `enforce` lets the request through exactly when the
-- applicable quota (the configured value, or else the default) is negative or above the current
-- count, raises QuotaReached with that quota otherwise, and fails only as reading the row fails.
pub enforce_lem :
    (conf : QuotaConf) (db : Db) (get_count : String → ℕ → ℕ) (r : Resource) (p : Project)
    → enforce conf db get_count (resource_name r) p ≡ (
        applicable conf r (get_by_external_project_id p.external_id db) >>= λ q.
        verdict q (get_count (resource_name r) p.id) p.external_id (resource_name r))
unfolding enforce get_effective_quotas
enforce_lem conf db get_count r p =
    enforce_row conf get_count r p (get_by_external_project_id p.external_id db)
