-- ===== src/Paging/Clean.antt =====
-- clean_paging_values returns a window that the database can serve, whatever the client sent.
use barbican.Shared.{◌≡◌, ◌↔◌, Option, none, some, arith}
use mathlib.Core.Path.{ap₂, subst}
use barbican.Shared.Int.{ℤ, pos, negsuc, ◌≤ℤ◌}
use barbican.Paging.{
  PagingArg, int, PagingConf, maxsize, int_or, bound_offset, bound_limit, clean_paging_values,
}

-- 1 ≤ default_limit_paging ≤ max_limit_paging
pub record IsSound (conf : PagingConf) : Type 0 where
  pub default_pos : pos 1 ≤ℤ conf.default_limit_paging
  pub default_le_max : conf.default_limit_paging ≤ℤ conf.max_limit_paging

bound_offset_range : (o : Option ℤ) → (pos 0 ≤ℤ bound_offset o) × (bound_offset o ≤ℤ pos maxsize)
unfolding bound_offset
bound_offset_range none = omega arith
bound_offset_range (some (pos n)) = ground arith
bound_offset_range (some (negsuc n)) = ground arith

bound_limit_range :
    (conf : PagingConf) (l : Option ℤ)
    → IsSound conf
    → (pos 1 ≤ℤ bound_limit conf l) × (bound_limit conf l ≤ℤ conf.max_limit_paging)
unfolding bound_limit
bound_limit_range conf none v = ground arith
bound_limit_range conf (some (pos n)) v = ground arith
bound_limit_range conf (some (negsuc n)) v = ground arith

-- Whatever the client sends, missing, numeric or malformed, the offset lies between 0 and
-- sys.maxsize and, with a sound configuration, the limit between 1 and max_limit_paging.
pub clean_paging_values_range :
    (conf : PagingConf) (offset limit : PagingArg)
    → IsSound conf
    → let w = clean_paging_values conf offset limit in
      (pos 0 ≤ℤ w.0) × (w.0 ≤ℤ pos maxsize) × (pos 1 ≤ℤ w.1) × (w.1 ≤ℤ conf.max_limit_paging)
unfolding clean_paging_values
clean_paging_values_range conf offset limit v =
    let (o_lo, o_hi) = bound_offset_range (int_or (pos 0) offset) in
    let (l_lo, l_hi) = bound_limit_range conf (int_or conf.default_limit_paging limit) v in
    (o_lo, o_hi, l_lo, l_hi)

offset_stays : (a : ℤ) → pos 0 ≤ℤ a → a ≤ℤ pos maxsize → bound_offset (int_or (pos 0) (int a)) ≡ a
unfolding bound_offset
offset_stays (pos n) lo hi = ground arith
offset_stays (negsuc n) lo hi = ground arith

limit_stays :
    (conf : PagingConf) (b : ℤ)
    → pos 1 ≤ℤ b
    → b ≤ℤ conf.max_limit_paging
    → bound_limit conf (int_or conf.default_limit_paging (int b)) ≡ b
unfolding bound_limit
limit_stays conf (pos n) lo hi = ground arith
limit_stays conf (negsuc n) lo hi = ground arith

-- The offset and the limit that a query may have.
abbrev pub InWindow : PagingConf → ℤ → ℤ → Type 0
InWindow conf a b = (pos 0 ≤ℤ a) × (a ≤ℤ pos maxsize) × (pos 1 ≤ℤ b) × (b ≤ℤ conf.max_limit_paging)

abbrev pub served : PagingConf → ℤ → ℤ → ℤ × ℤ
served conf a b = clean_paging_values conf (int a) (int b)

served_stays : (conf : PagingConf) (a b : ℤ) → InWindow conf a b → served conf a b ≡ (a, b)
unfolding clean_paging_values
served_stays conf a b (a_lo, a_hi, b_lo, b_hi) =
    ap₂ (λ (x y : ℤ). let p : ℤ × ℤ = (x, y) in p) (offset_stays a a_lo a_hi)
      (limit_stays conf b b_lo b_hi)

-- With a sound configuration, a request of numbers is served as it stands exactly when its offset
-- lies between 0 and sys.maxsize and its limit between 1 and max_limit_paging.
pub clean_paging_values_fixes :
    (conf : PagingConf) (a b : ℤ) → IsSound conf → (served conf a b ≡ (a, b)) ↔ InWindow conf a b
clean_paging_values_fixes conf a b v = (
  λ e.
      subst (λ (w : ℤ × ℤ). InWindow conf w.0 w.1) e
        (clean_paging_values_range conf (int a) (int b) v),
  served_stays conf a b,
)
