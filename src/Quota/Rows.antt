-- ===== src/Quota/Rows.antt =====
-- Lemmas on the queries and row updates of the project quota repository.
use barbican.Shared.{
  ℕ, ◌≤◌, ◌<◌, String, ◌≡◌, refl, ◌⊎◌, inl, inr, List, [], ◌∷◌, ◌++◌, map, arith, str_eq, ◌==◌,
  if◌then◌else◌,
}
use barbican.Shared.Int.{ℤ}
use barbican.Quota.{Project, ProjectQuotas, Db, Dict, projects_named, has_project, quotas_named}
use barbican.Quota.Admin.{quotas_of, update_values, update_rows, remove_rows}

pub projects_named-append :
    (e : String) (ps : List Project) (p : Project)
    → projects_named e (ps ++ p ∷ [])
      ≡ projects_named e ps ++ (if str_eq p.external_id e then p ∷ [] else [])
unfolding projects_named
projects_named-append e [] p = ground arith
projects_named-append e (x ∷ ps) p = ground (arith, projects_named-append e ps p)

pub quotas_of-append :
    (i : ℕ) (qs : List ProjectQuotas) (q : ProjectQuotas)
    → quotas_of i (qs ++ q ∷ []) ≡ quotas_of i qs ++ (if q.project_id == i then q ∷ [] else [])
unfolding quotas_of
quotas_of-append i [] q = ground arith
quotas_of-append i (x ∷ qs) q = ground (arith, quotas_of-append i qs q)

pub quotas_of-update :
    (i j : ℕ) (parsed : Dict ℤ) (qs : List ProjectQuotas)
    → quotas_of j (update_rows i parsed qs)
      ≡ (if i == j then map (update_values parsed) (quotas_of j qs) else quotas_of j qs)
unfolding quotas_of update_rows update_values
quotas_of-update i j parsed [] = ground arith
quotas_of-update i j parsed (q ∷ qs) = ground (arith, quotas_of-update i j parsed qs)

pub quotas_of-remove :
    (i j : ℕ) (qs : List ProjectQuotas)
    → quotas_of j (remove_rows i qs) ≡ (if i == j then [] else quotas_of j qs)
unfolding quotas_of remove_rows
quotas_of-remove i j [] = ground arith
quotas_of-remove i j (q ∷ qs) = ground (arith, quotas_of-remove i j qs)

quotas_named_none :
    (e : String) (ps : List Project) (qs : List ProjectQuotas)
    → projects_named e ps ≡ []
    → quotas_named e ps qs ≡ []
unfolding quotas_named
quotas_named_none e ps [] h = refl
quotas_named_none e ps (q ∷ qs) h = rw (h, has_project) (quotas_named_none e ps qs h)

quotas_named_one :
    (e : String) (ps : List Project) (p : Project) (qs : List ProjectQuotas)
    → projects_named e ps ≡ p ∷ []
    → quotas_named e ps qs ≡ quotas_of p.id qs
unfolding quotas_named quotas_of
quotas_named_one e ps p [] h = refl
quotas_named_one e ps p (q ∷ qs) h =
    rw (h, has_project) (ground (arith, quotas_named_one e ps p qs h))

-- The join, by the project that the external id names.
abbrev pub rows_for : List Project → List ProjectQuotas → List ProjectQuotas
rows_for [] qs = []
rows_for (p ∷ ps) qs = quotas_of p.id qs

abbrev pub AtMostOne {ℓ} : {A : Type ℓ} → List A → Type ℓ
AtMostOne {A} xs = (xs ≡ []) ⊎ ((a : A) × (xs ≡ a ∷ []))

pub quotas_named_lem :
    (e : String) (ps : List Project) (qs : List ProjectQuotas)
    → AtMostOne (projects_named e ps)
    → quotas_named e ps qs ≡ rows_for (projects_named e ps) qs
quotas_named_lem e ps qs (inl h) = rw h (quotas_named_none e ps qs h)
quotas_named_lem e ps qs (inr (p, h)) = rw h (quotas_named_one e ps p qs h)

-- At most one project has an external id, by the constraint of its table, and ids are fresh. That a
-- project has at most one row of quotas is no constraint of the table: the operations keep it.
pub record IsValid (db : Db) : Type 0 where
  pub one_project : (e : String) → AtMostOne (projects_named e db.projects)
  pub one_row : (i : ℕ) → AtMostOne (quotas_of i db.quotas)
  pub id_below :
      (e : String) (p : Project) → projects_named e db.projects ≡ p ∷ [] → p.id < db.next_id
  pub row_below : (i : ℕ) → db.next_id ≤ i → quotas_of i db.quotas ≡ []
  pub ids_differ :
      (e e' : String) (p p' : Project)
      → projects_named e db.projects ≡ p ∷ []
      → projects_named e' db.projects ≡ p' ∷ []
      → p.id ≡ p'.id
      → e ≡ e'
