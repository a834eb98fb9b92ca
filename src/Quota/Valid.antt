-- ===== src/Quota/Valid.antt =====
-- The repository's writes keep what the table constraints guarantee.
use barbican.Shared.{ℕ, suc, ◌<◌, String, ◌≡◌, [], ◌∷◌, ◌++◌, arith, str_eq, eq_iff, if◌then◌else◌}
use mathlib.Core.List.{append-nil}
use barbican.Shared.Int.{ℤ}
use barbican.Quota.{Db, Dict, projects_named}
use barbican.Quota.Admin.{new_quotas, quotas_of, update_rows, remove_rows}
use barbican.Quota.Rows.{
  projects_named-append, quotas_of-append, quotas_of-update, quotas_of-remove, IsValid,
}

abbrev pub with_project : String → Db → Db
with_project e db = record db {
  projects = db.projects ++ record { id = db.next_id; external_id = e } ∷ [];
  next_id = suc db.next_id;
}

abbrev pub with_row : ℕ → Dict ℤ → Db → Db
with_row i parsed db = record db { quotas = db.quotas ++ new_quotas i parsed ∷ [] }

abbrev pub with_update : ℕ → Dict ℤ → Db → Db
with_update i parsed db = record db { quotas = update_rows i parsed db.quotas }

abbrev pub without_rows : ℕ → Db → Db
without_rows i db = record db { quotas = remove_rows i db.quotas }

-- The new project is found by its own name, and every other query answers as before.
pub projects_named-with_project :
    (e e' : String) (db : Db)
    → projects_named e db.projects ≡ []
    → projects_named e' (with_project e db).projects ≡ (
        if str_eq e e'
        then record { id = db.next_id; external_id = e } ∷ []
        else projects_named e' db.projects)
projects_named-with_project e e' db h = ground (
  arith,
  projects_named-append e' db.projects (record { id = db.next_id; external_id = e }),
  append-nil (projects_named e' db.projects),
  eq_iff e e',
)

pub with_project-IsValid :
    (e : String) (db : Db)
    → projects_named e db.projects ≡ []
    → IsValid db
    → IsValid (with_project e db)
with_project-IsValid e db h v = record {
  one_project = λ e'. grind (arith, projects_named-with_project e e' db h, v.one_project e');
  one_row = v.one_row;
  id_below = λ e' p x. grind (arith, projects_named-with_project e e' db h, v.id_below e' p);
  row_below = λ i k. v.row_below i (omega arith);
  ids_differ = λ e₁ e₂ p₁ p₂ x₁ x₂ k. ground (
    arith,
    projects_named-with_project e e₁ db h,
    projects_named-with_project e e₂ db h,
    v.ids_differ e₁ e₂ p₁ p₂,
    v.id_below e₁ p₁,
    v.id_below e₂ p₂,
    eq_iff e e₁,
    eq_iff e e₂,
  );
}

pub with_row-IsValid :
    (i : ℕ) (parsed : Dict ℤ) (db : Db)
    → quotas_of i db.quotas ≡ []
    → i < db.next_id
    → IsValid db
    → IsValid (with_row i parsed db)
unfolding new_quotas
with_row-IsValid i parsed db h k v = record {
  one_project = v.one_project;
  one_row = λ j. ground (arith, quotas_of-append j db.quotas (new_quotas i parsed), v.one_row j);
  id_below = v.id_below;
  row_below =
      λ j l. ground (arith, quotas_of-append j db.quotas (new_quotas i parsed), v.row_below j);
  ids_differ = v.ids_differ;
}

pub with_update-IsValid :
    (i : ℕ) (parsed : Dict ℤ) (db : Db) → IsValid db → IsValid (with_update i parsed db)
with_update-IsValid i parsed db v = record {
  one_project = v.one_project;
  one_row = λ j. ground (arith, quotas_of-update i j parsed db.quotas, v.one_row j);
  id_below = v.id_below;
  row_below = λ j l. ground (arith, quotas_of-update i j parsed db.quotas, v.row_below j);
  ids_differ = v.ids_differ;
}

pub without_rows-IsValid : (i : ℕ) (db : Db) → IsValid db → IsValid (without_rows i db)
without_rows-IsValid i db v = record {
  one_project = v.one_project;
  one_row = λ j. ground (arith, quotas_of-remove i j db.quotas, v.one_row j);
  id_below = v.id_below;
  row_below = λ j l. ground (arith, quotas_of-remove i j db.quotas, v.row_below j);
  ids_differ = v.ids_differ;
}
