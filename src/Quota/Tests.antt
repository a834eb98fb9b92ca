-- ===== src/Quota/Tests.antt =====
-- Runs of the quota code at concrete inputs, and the quota theorems applied to them.
use barbican.Shared.{◌≡◌, refl, inl, none, some, [], ◌∷◌, arith}
use barbican.Shared.Int.{ℤ, pos, negsuc}
use barbican.Shared.Result.{ok, raised}
use barbican.Session.{Session}
use barbican.Quota.{
  quota_reached, QuotaConf, Project, ProjectQuotas, Db, Dict, projects_named,
  get_by_external_project_id, get_effective_quotas, compute_effective_quotas,
  extract_project_quotas,
}
use barbican.Quota.Enforce.{Resource, enforce, enforce_lem}
use barbican.Quota.Admin.{
  set_project_quotas, delete_project_quotas, get_or_create_project, create_or_update_by_project_id,
  quotas_of,
}
use barbican.Quota.Rows.{IsValid}
use barbican.Quota.SetDelete.{
  IsConfigured, set_project_quotas_lem, Deletes, delete_project_quotas_lem,
}

abbrev conf : QuotaConf
conf = record {
  quota_secrets = negsuc 0;
  quota_orders = pos 5;
  quota_containers = pos 0;
  quota_consumers = negsuc 0;
  quota_cas = negsuc 0;
}

abbrev no_rows : Session Db
no_rows = record {
  committed = record { projects = []; quotas = []; next_id = 1 };
  current = record { projects = []; quotas = []; next_id = 1 };
}

no_rows-IsValid : IsValid no_rows.current
unfolding projects_named quotas_of
no_rows-IsValid = record {
  one_project = λ e. inl refl;
  one_row = λ i. inl refl;
  id_below = λ e p h. ground arith;
  row_below = λ i h. refl;
  ids_differ = λ e e' p p' h h' k. ground arith;
}

abbrev two_secrets : Dict ℤ
two_secrets = ("secrets", pos 2) ∷ []

abbrev four_orders : Dict ℤ
four_orders = ("orders", pos 4) ∷ []

abbrev configured : Session Db
configured = record {
  committed = record { projects = project ∷ []; quotas = row ∷ []; next_id = 2 };
  current = record { projects = project ∷ []; quotas = row ∷ []; next_id = 2 };
}
  where
    project : Project
    project = record { id = 1; external_id = "alpha" }

    row : ProjectQuotas
    row = record {
      project_id = 1;
      secrets = some (pos 2);
      orders = none;
      containers = none;
      consumers = none;
      cas = none;
    }

set_makes_configured : set_project_quotas "alpha" two_secrets no_rows ≡ (ok tt, configured)
unfolding set_project_quotas get_or_create_project create_or_update_by_project_id
set_makes_configured = refl

abbrev alpha : Project
alpha = record { id = 1; external_id = "alpha" }

two_secrets_reached :
    enforce conf configured.current (λ r i. 2) "secrets" alpha
    ≡ raised (quota_reached "alpha" "secrets" (pos 2))
unfolding enforce get_effective_quotas get_by_external_project_id compute_effective_quotas
    extract_project_quotas
two_secrets_reached = refl

enforce_lem_example : enforce conf configured.current (λ r i. 4) "orders" alpha ≡ ok tt
unfolding get_by_external_project_id
enforce_lem_example = enforce_lem conf configured.current (λ r i. 4) Resource.orders alpha

set_project_quotas_lem_example :
    IsConfigured "alpha" two_secrets no_rows (set_project_quotas "alpha" two_secrets no_rows)
set_project_quotas_lem_example = set_project_quotas_lem "alpha" two_secrets no_rows no_rows-IsValid

configured-IsValid : IsValid configured.current
unfolding set_project_quotas get_or_create_project create_or_update_by_project_id
configured-IsValid =
    (set_project_quotas_lem "alpha" two_secrets no_rows no_rows-IsValid).configures.valid

alpha_row : ProjectQuotas
alpha_row = record {
  project_id = 1;
  secrets = some (pos 2);
  orders = none;
  containers = none;
  consumers = none;
  cas = none;
}

delete_project_quotas_lem_example :
    Deletes "alpha" configured.current (get_by_external_project_id "alpha" configured.current) (
      (delete_project_quotas "alpha" configured).0,
      (delete_project_quotas "alpha" configured).1.current,
    )
    × ((delete_project_quotas "alpha" configured).1.committed ≡ configured.committed)
delete_project_quotas_lem_example = delete_project_quotas_lem "alpha" configured configured-IsValid
