-- ===== src/Plugins/Preference.antt =====
-- The store that create_or_update_for_project of barbican/model/repositories.py sets for a project
-- is the one that get_secret_store_for_project gives.
use barbican.Shared.{
  ℕ, ◌≡◌, ◌≢◌, ◌≤◌, refl, ap, ◌∙◌, inl, inr, Bool-cases, some, List, [], ◌∷◌, ◌++◌, ◌==◌, length,
  map, arith,
}
use barbican.Shared.Result.{Result, ok}
use barbican.Plugins.{
  PluginError, SecretStore, ProjectSecretStore, first_such, store_of, rows_of_project,
  get_secret_store_for_project,
}
use barbican.Plugins.Sync.{Tables, set_store, create_or_update, create_or_update_for_project}

abbrev with_store : ℕ → ProjectSecretStore → ProjectSecretStore
with_store i r = record r { secret_store_id = i }

rows_of_project-append :
    (q : ℕ) (xs ys : List ProjectSecretStore)
    → rows_of_project q (xs ++ ys) ≡ rows_of_project q xs ++ rows_of_project q ys
unfolding rows_of_project
rows_of_project-append q [] ys = refl
rows_of_project-append q (x ∷ xs) ys = ground (arith, rows_of_project-append q xs ys)

module _ (p i : ℕ) where
  rows_of_project-set_store :
      (xs : List ProjectSecretStore)
      → rows_of_project p (set_store p i xs) ≡ map (with_store i) (rows_of_project p xs)
  unfolding rows_of_project
  rows_of_project-set_store [] = refl
  rows_of_project-set_store (x ∷ xs) = elim (Bool-cases (x.project_id == p)) [
    | inl e ↦ rw e (rw e (ap (λ rs. with_store i x ∷ rs) (rows_of_project-set_store xs)))
    | inr e ↦ rw e (rw e (rows_of_project-set_store xs))
  ]

  rows_of_project-set_store_other :
      (q : ℕ) (xs : List ProjectSecretStore)
      → q ≢ p
      → rows_of_project q (set_store p i xs) ≡ rows_of_project q xs
  unfolding rows_of_project
  rows_of_project-set_store_other q [] n = refl
  rows_of_project-set_store_other q (x ∷ xs) n =
      let rest = rows_of_project-set_store_other q xs n in
      elim (Bool-cases (x.project_id == p)) [
        | inl e ↦ ground (arith, rest, e)
        | inr e ↦ rw e (ground (arith, rest))
      ]

  rows_of_project-append_other :
      (q : ℕ) (xs : List ProjectSecretStore)
      → q ≢ p
      → rows_of_project q (xs ++ record { project_id = p; secret_store_id = i } ∷ [])
        ≡ rows_of_project q xs
  unfolding rows_of_project
  rows_of_project-append_other q [] n = ground arith
  rows_of_project-append_other q (x ∷ xs) n = ground (arith, rows_of_project-append_other q xs n)

  rows_of_project_self :
      rows_of_project p (record { project_id = p; secret_store_id = i } ∷ [])
      ≡ record { project_id = p; secret_store_id = i } ∷ []
  unfolding rows_of_project
  rows_of_project_self = ground arith

  -- What a project gets once its preference is set, and what the other projects get.
  module _ (w : Tables) (s : SecretStore)
      (stands : first_such (λ t. t.id == i) w.db.secret_stores ≡ some s) where
    PrefersIt : Result PluginError Unit × Tables → Type 0
    PrefersIt (r, after) =
        (r ≡ ok tt)
        × (get_secret_store_for_project p after.db ≡ ok (some s))
        × ((q : ℕ)
            → q ≢ p
            → get_secret_store_for_project q after.db ≡ get_secret_store_for_project q w.db)

    create_or_update-PrefersIt :
        (rows : List ProjectSecretStore)
        → rows_of_project p w.db.project_stores ≡ rows
        → length rows ≤ 1
        → PrefersIt (create_or_update p i rows w)
    unfolding get_secret_store_for_project PrefersIt
    create_or_update-PrefersIt [] e h = (
      refl,
      ap (store_of w.db) (
            rows_of_project-append p w.db.project_stores _
            ∙ ap
                (λ rs.
                  rs ++ rows_of_project p (record { project_id = p; secret_store_id = i } ∷ []))
                e
            ∙ rows_of_project_self)
          ∙ rw (store_of, stands),
      λ q. λ n. ap (store_of w.db) (rows_of_project-append_other q w.db.project_stores n),
    )
    create_or_update-PrefersIt (r ∷ []) e h = (
      refl,
      ap (store_of w.db) (rows_of_project-set_store w.db.project_stores ∙ ap (map (with_store i)) e)
          ∙ rw (store_of, stands),
      λ q. λ n. ap (store_of w.db) (rows_of_project-set_store_other q w.db.project_stores n),
    )
    create_or_update-PrefersIt (r ∷ r' ∷ rs) e h = absurd (omega arith)

-- A project with at most one preference and a store that stands under the id given: setting it
-- returns, the project then gets that store, and every other project gets what it got before.
pub create_or_update_for_project-get_secret_store_for_project :
    (p i : ℕ) (w : Tables) (s : SecretStore)
    → first_such (λ t. t.id == i) w.db.secret_stores ≡ some s
    → length (rows_of_project p w.db.project_stores) ≤ 1
    → let (r, after) = create_or_update_for_project p i w in
      (r ≡ ok tt)
      × (get_secret_store_for_project p after.db ≡ ok (some s))
      × ((q : ℕ)
          → q ≢ p
          → get_secret_store_for_project q after.db ≡ get_secret_store_for_project q w.db)
unfolding create_or_update_for_project PrefersIt
create_or_update_for_project-get_secret_store_for_project p i w s stands one =
    create_or_update-PrefersIt p i w s stands (rows_of_project p w.db.project_stores) refl one
