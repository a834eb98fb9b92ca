-- ===== src/Paging/Tests.antt =====
-- Runs of the paging code at concrete inputs, and the paging theorems applied to them.
use barbican.Shared.{ℕ, ◌≡◌, ◌↔◌, refl, some, none, List, [], ◌∷◌, arith}
use barbican.Shared.Int.{pos, negsuc, ◌≤ℤ◌}
use barbican.Paging.{
  absent, int, text, PagingConf, maxsize, bound_offset, bound_limit, int_of_text,
  clean_paging_values, add_nav_hrefs,
}
use barbican.Paging.Clean.{IsSound, clean_paging_values_range, InWindow, clean_paging_values_fixes}
use barbican.Paging.Walk.{walk, walk_shows_all, nav_links}

abbrev conf : PagingConf
conf = record { default_limit_paging = pos 10; max_limit_paging = pos 100 }

conf-IsSound : IsSound conf
conf-IsSound = record { default_pos = omega arith; default_le_max = omega arith }

int_of_text_values :
    (int_of_text " -12 " ≡ some (negsuc 11))
    × (int_of_text "1000" ≡ some (pos 1000))
    × (int_of_text "1_0" ≡ none)
    × (int_of_text "ten" ≡ none)
    × (int_of_text "+7" ≡ some (pos 7))
unfolding int_of_text
int_of_text_values = (refl, refl, refl, refl, refl)

clean_values :
    (clean_paging_values conf (text "20") (text "1000") ≡ (pos 20, pos 100))
    × (clean_paging_values conf (text "-3") (text "0") ≡ (pos 0, pos 1))
    × (clean_paging_values conf absent (text "x") ≡ (pos 0, pos 10))
unfolding clean_paging_values bound_offset bound_limit int_of_text
clean_values = (refl, refl, refl)

clean_paging_values_range_example :
    let w = clean_paging_values conf (text "20") (text "1000") in
    (pos 0 ≤ℤ w.0) × (w.0 ≤ℤ pos maxsize) × (pos 1 ≤ℤ w.1) × (w.1 ≤ℤ pos 100)
clean_paging_values_range_example =
    clean_paging_values_range conf (text "20") (text "1000") conf-IsSound

clean_paging_values_fixes_example :
    (clean_paging_values conf (int (pos 20)) (int (pos 100)) ≡ (pos 20, pos 100))
    ↔ InWindow conf (pos 20) (pos 100)
clean_paging_values_fixes_example = clean_paging_values_fixes conf (pos 20) (pos 100) conf-IsSound

abbrev rows : List ℕ
rows = 1 ∷ 2 ∷ 3 ∷ 4 ∷ 5 ∷ []

walk_shows_all_example : walk "secrets" rows 6 (pos 0) (pos 2) ≡ rows
walk_shows_all_example = walk_shows_all "secrets" rows 6 2 (omega arith) (omega arith)

nav_links_example :
    ((add_nav_hrefs "secrets" (pos 2) (pos 2) (pos 5) rows).next
      ≡ some (record { resources_name = "secrets"; limit = pos 2; offset = pos 4 }))
    × ((add_nav_hrefs "secrets" (pos 2) (pos 2) (pos 5) rows).previous
        ≡ some (record { resources_name = "secrets"; limit = pos 2; offset = pos 0 }))
    × ((add_nav_hrefs "secrets" (pos 4) (pos 2) (pos 5) rows).previous
        ≡ some (record { resources_name = "secrets"; limit = pos 2; offset = pos 2 }))
nav_links_example = nav_links "secrets" 2 2 5 rows (omega arith)
