-- ===== src/Quota/SetDelete.antt =====
-- set_project_quotas and delete_project_quotas as a whole.
use barbican.Shared.{
  ℕ, String, ◌≡◌, refl, ap, ◌∙◌, ◌≢◌, inl, inr, List, [], ◌∷◌, arith, eq_iff, eq_refl,
}
use barbican.Shared.Int.{ℤ}
use barbican.Shared.Result.{Result, ok, raised}
use barbican.Session.{Session}
use barbican.Quota.{
  QuotaError, not_found, Project, ProjectQuotas, Db, Dict, one, projects_named,
  get_by_external_project_id,
}
use barbican.Quota.Enforce.{}
use barbican.Quota.Admin.{
  remove_rows, quotas_of, get_or_create_project, create_or_update_by_project_id, set_project_quotas,
  delete_project_quotas,
}
use barbican.Quota.Rows.{rows_for, AtMostOne, IsValid, quotas_of-remove}
use barbican.Quota.Valid
use barbican.Quota.RoundTrip.{
  Configures, get_by_lem, other_reads, insert-Configures, update-Configures,
}

-- After the call: it returned, what it wrote is committed, and the configuration is as asked.
pub record IsConfigured (e : String) (parsed : Dict ℤ) (s : Session Db)
    (r : Result QuotaError Unit × Session Db) : Type 0 where
  pub returned : r.0 ≡ ok tt
  pub committed : r.1.committed ≡ r.1.current
  pub configures : Configures e parsed s.current r.1.current

abbrev both : Db → Session Db
both db = record { committed = db; current = db }

module _ (e : String) (parsed : Dict ℤ) (s : Session Db) where
  IsConfigured-of :
      (db : Db)
      → set_project_quotas e parsed s ≡ (ok tt, both db)
      → Configures e parsed s.current db
      → IsConfigured e parsed s (set_project_quotas e parsed s)
  IsConfigured-of db run c = rw run (record { returned = refl; committed = refl; configures = c })

  set_found_lem :
      (p : Project)
      → projects_named e s.current.projects ≡ p ∷ []
      → AtMostOne (quotas_of p.id s.current.quotas)
      → IsValid s.current
      → IsConfigured e parsed s (set_project_quotas e parsed s)
  unfolding set_project_quotas get_or_create_project create_or_update_by_project_id
  set_found_lem p found (inl empty) v =
      IsConfigured-of (Valid.with_row p.id parsed s.current) (ground arith)
        (insert-Configures e s.current p found v parsed empty)
  set_found_lem p found (inr (q, old)) v =
      IsConfigured-of (Valid.with_update p.id parsed s.current) (ground arith)
        (update-Configures e s.current p found v parsed q old)

  abbrev fresh : Project
  fresh = record { id = s.current.next_id; external_id = e }

  fresh_found :
      projects_named e s.current.projects ≡ []
      → projects_named e (Valid.with_project e s.current).projects ≡ fresh ∷ []
  fresh_found h = rw (Valid.projects_named-with_project e e s.current h, eq_refl e)

  -- Creating a project changes what no other external id reads.
  reads-with_project :
      (e' : String)
      → projects_named e s.current.projects ≡ []
      → IsValid s.current
      → e' ≢ e
      → get_by_external_project_id e' (Valid.with_project e s.current)
        ≡ get_by_external_project_id e' s.current
  reads-with_project e' h v ne =
      let same : projects_named e' (Valid.with_project e s.current).projects
          ≡ projects_named e' s.current.projects =
        ground (arith, Valid.projects_named-with_project e e' s.current h, eq_iff e e') in
      get_by_lem e' (Valid.with_project e s.current) (Valid.with_project-IsValid e s.current h v)
      ∙ rw (get_by_lem e' s.current v)
          (ap (λ (ps : List Project). one (rows_for ps s.current.quotas)) same)

  -- Where the project is new it has no row, whether or not the project's own row is there.
  unset_before :
      projects_named e s.current.projects ≡ []
      → IsValid s.current
      → get_by_external_project_id e (Valid.with_project e s.current)
        ≡ get_by_external_project_id e s.current
  unset_before h v =
      let empty : quotas_of s.current.next_id s.current.quotas ≡ [] =
        v.row_below s.current.next_id (omega arith) in
      get_by_lem e (Valid.with_project e s.current) (Valid.with_project-IsValid e s.current h v)
      ∙ rw (fresh_found h, empty, get_by_lem e s.current v, h)

  -- The configuration as seen from before the project was created.
  from_new :
      (after : Db)
      → projects_named e s.current.projects ≡ []
      → IsValid s.current
      → Configures e parsed (Valid.with_project e s.current) after
      → Configures e parsed s.current after
  from_new after h v c = record {
    row = c.row;
    reads = c.reads;
    values = λ r. rw (← unset_before h v) (c.values r);
    others = λ e' ne. c.others e' ne ∙ reads-with_project e' h v ne;
    valid = c.valid;
  }

  set_new_lem :
      projects_named e s.current.projects ≡ []
      → IsValid s.current
      → IsConfigured e parsed s (set_project_quotas e parsed s)
  unfolding set_project_quotas get_or_create_project create_or_update_by_project_id
  set_new_lem h v =
      let empty : quotas_of s.current.next_id s.current.quotas ≡ [] =
        v.row_below s.current.next_id (omega arith) in
      IsConfigured-of (Valid.with_row s.current.next_id parsed (Valid.with_project e s.current))
        (ground arith)
        (from_new _ h v (
          insert-Configures e (Valid.with_project e s.current) fresh (fresh_found h)
            (Valid.with_project-IsValid e s.current h v) parsed empty))

  -- In a valid database `set_project_quotas` returns, commits, makes the named project (created if
  -- it is new) read the given values, leaves a resource that the dict omits as the row had it, or
  -- null in a new row, changes what no other external id reads, and keeps the database valid.
  pub set_project_quotas_lem :
      IsValid s.current → IsConfigured e parsed s (set_project_quotas e parsed s)
  set_project_quotas_lem v = elim (v.one_project e) [
    | inl h ↦ set_new_lem h v
    | inr (p, found) ↦ set_found_lem p found (v.one_row p.id) v
  ]

-- What a deletion leaves behind.
abbrev pub Deletes :
    String → Db → Result QuotaError ProjectQuotas → Result QuotaError Unit × Db → Type 0
Deletes e before (ok q) (r, after) =
    (r ≡ ok tt)
    × (get_by_external_project_id e after ≡ raised not_found)
    × ((e' : String)
        → e' ≢ e
        → get_by_external_project_id e' after ≡ get_by_external_project_id e' before)
    × IsValid after
Deletes e before (raised x) (r, after) = (r ≡ raised x) × (after ≡ before)

delete_found_lem :
    (e : String) (db : Db) (p : Project) (q : ProjectQuotas)
    → IsValid db
    → projects_named e db.projects ≡ p ∷ []
    → q.project_id ≡ p.id
    → Deletes e db (ok q) (ok tt, Valid.without_rows q.project_id db)
delete_found_lem e db p q v found own =
    let w = Valid.without_rows-IsValid q.project_id db v in
    (
      refl,
      get_by_lem e (Valid.without_rows q.project_id db) w
          ∙ rw found (ground (arith, quotas_of-remove q.project_id p.id db.quotas)),
      other_reads e db p found v (remove_rows q.project_id db.quotas) w
          (λ j h. ground (arith, quotas_of-remove q.project_id j db.quotas)),
      w,
    )

quotas_of-project_id :
    (i : ℕ) (qs : List ProjectQuotas) (q : ProjectQuotas) (rest : List ProjectQuotas)
    → quotas_of i qs ≡ q ∷ rest
    → q.project_id ≡ i
unfolding quotas_of
quotas_of-project_id i [] q rest h = ground arith
quotas_of-project_id i (x ∷ qs) q rest h = ground (arith, quotas_of-project_id i qs q rest)

-- In a valid database `delete_project_quotas` removes the row of the project it names: the project
-- reads NotFound afterwards, other external ids read what they read before, and the database stays
-- valid. Where the project has no row it raises NotFound and changes nothing. It commits nothing.
pub delete_project_quotas_lem :
    (e : String) (s : Session Db)
    → IsValid s.current
    → Deletes e s.current
        (get_by_external_project_id e s.current)
        ((delete_project_quotas e s).0, (delete_project_quotas e s).1.current)
      × ((delete_project_quotas e s).1.committed ≡ s.committed)
unfolding delete_project_quotas
delete_project_quotas_lem e s v = elim (v.one_project e) [
  | inl h ↦ rw (get_by_lem e s.current v, h) ((refl, refl), refl)
  | inr (p, found) ↦ go p found (v.one_row p.id)
]
  where
    go :
        (p : Project)
        → projects_named e s.current.projects ≡ p ∷ []
        → AtMostOne (quotas_of p.id s.current.quotas)
        → Deletes e s.current
            (get_by_external_project_id e s.current)
            ((delete_project_quotas e s).0, (delete_project_quotas e s).1.current)
          × ((delete_project_quotas e s).1.committed ≡ s.committed)
    go p found (inl empty) = rw (get_by_lem e s.current v, found, empty) ((refl, refl), refl)
    go p found (inr (q, old)) =
        rw (get_by_lem e s.current v, found, old)
          (
            delete_found_lem e s.current p q v found
                (quotas_of-project_id p.id s.current.quotas q [] old),
            refl,
          )
