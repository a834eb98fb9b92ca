-- ===== src/Paging/Walk.antt =====
-- A client that follows the `next` links, and what it sees.
use barbican.Shared.{
  ℕ, zero, suc, ◌+◌, ◌-◌, ◌≤◌, ◌<◌, String, ◌≡◌, ◌∙◌, inl, inr, none, some, List, [], ◌++◌, arith,
  length, take, drop, length-drop, take-eq_self, take-append-drop, drop-drop, Bool-cases, ltb→lt,
  tests, ltb, if◌then◌else◌,
}
use mathlib.Core.List.{append-nil}
use barbican.Shared.Int.{ℤ, pos}
use barbican.Paging.{ListHref, page, Paged, add_nav_hrefs}

abbrev nav {ℓ} : {D : Type ℓ} → String → ℕ → ℕ → ℕ → D → Paged D
nav name o l total body = add_nav_hrefs name (pos o) (pos l) (pos total) body

abbrev href : String → ℕ → ℕ → ListHref
href name o l = record { resources_name = name; limit = pos l; offset = pos o }

next_more {ℓ} :
    {D : Type ℓ} (name : String) (o l total : ℕ) (body : D)
    → o + l < total
    → (nav name o l total body).next ≡ some (href name (o + l) l)
unfolding add_nav_hrefs
next_more name o l total body h = ground arith

next_last {ℓ} :
    {D : Type ℓ} (name : String) (o l total : ℕ) (body : D)
    → total ≤ o + l
    → (nav name o l total body).next ≡ none
unfolding add_nav_hrefs
next_last name o l total body h = ground arith

module _ {ℓ} {A : Type ℓ} (name : String) (rows : List A) where
  -- The pages that the links lead to, from the one at `offset` on.
  pub walk : ℕ → ℤ → ℤ → List A
  walk zero offset limit = []
  walk (suc fuel) offset limit =
      page offset limit rows
      ++ elim (add_nav_hrefs name offset limit (pos (length rows)) rows).next [
        | none ↦ []
        | some h ↦ walk fuel h.offset h.limit
      ]

  walk_lem :
      (fuel o l : ℕ) → 0 < l → length rows - o < fuel → walk fuel (pos o) (pos l) ≡ drop o rows
  unfolding walk page
  walk_lem zero o l h k = absurd (omega arith)
  walk_lem (suc fuel) o l h k = elim (Bool-cases (ltb (o + l) (length rows))) [
    | inl more ↦
        rw (next_more name o l (length rows) rows (ltb→lt _ _ more), walk)
          (rw (walk_lem fuel (o + l) l h (omega tests), ← drop-drop o l rows)
            (take-append-drop l (drop o rows)))
    | inr last ↦
        rw (next_last name o l (length rows) rows (ground arith), walk)
          (append-nil (take l (drop o rows))
            ∙ take-eq_self l (drop o rows) (ground (arith, length-drop o rows)))
  ]

-- From the first page, following `next` as long as there is one shows every row once, in order;
-- any fuel above the number of rows is enough.
pub walk_shows_all {ℓ} :
    {A : Type ℓ} (name : String) (rows : List A) (fuel limit : ℕ)
    → 0 < limit
    → length rows < fuel
    → walk name rows fuel (pos 0) (pos limit) ≡ rows
walk_shows_all name rows fuel limit h k = walk_lem name rows fuel 0 limit h (omega arith)

-- The links of a page: `next` is there exactly when rows follow, `previous` exactly when rows
-- precede, and the `previous` link of the page that `next` names leads back to this page.
pub nav_links {ℓ} :
    {D : Type ℓ} (name : String) (o l total : ℕ) (body : D)
    → 0 < l
    → ((nav name o l total body).next
        ≡ (if ltb (o + l) total then some (href name (o + l) l) else none))
      × ((nav name o l total body).previous
          ≡ (if ltb 0 o then some (href name (o - l) l) else none))
      × ((nav name (o + l) l total body).previous ≡ some (href name o l))
unfolding add_nav_hrefs
nav_links name o l total body h = (ground arith, ground arith, ground arith)
