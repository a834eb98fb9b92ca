-- ===== src/Paging.antt =====
-- Paging of list responses: clean_paging_values of barbican/model/repositories.py, the queries that
-- use it, and the list hrefs of barbican/common/hrefs.py. Python's int() of a text is modelled for
-- ASCII, as the versions before 3.6 read it, which take no underscores. A list href is kept as its parts: the resource, the limit and the offset that the text
-- '{0}?limit={1}&offset={2}' shows.
pub mod Clean
pub mod Walk
mod Tests
use Prim.Native.String
use barbican.Shared.{
  ℕ, suc, ◌+◌, ◌-◌, ◌*◌, ◌^◌, String, Bool, true, false, not, ◌&&◌, ◌||◌, Option, none, some, List,
  [], ◌∷◌, ◌==◌, leb, ltb, length, take, drop, if◌then◌else◌,
}
use barbican.Shared.Text.{codes}
use barbican.Shared.Int.{ℤ, pos, negsuc, sub_ℕ, pos_part, ◌+ℤ◌, ◌-ℤ◌, ltb_ℤ}

-- A query parameter: missing or None, a number, or the text of the URL.
pub data PagingArg : Type 0 where
  absent : PagingArg
  int : ℤ → PagingArg
  text : String → PagingArg

-- CONF.default_limit_paging and CONF.max_limit_paging
pub record PagingConf : Type 0 where
  pub default_limit_paging : ℤ
  pub max_limit_paging : ℤ

abbrev is_digit : ℕ → Bool
is_digit c = leb b'0' c && leb c b'9'

abbrev is_space : ℕ → Bool
is_space c = c == 32 || leb 9 c && leb c 13

abbrev skip_spaces : List ℕ → List ℕ
skip_spaces [] = []
skip_spaces (c ∷ cs) = let rest = skip_spaces cs in if is_space c then rest else c ∷ cs

-- Digits up to trailing space; `prev` says that a digit stood just before, as the end needs.
unfoldable pub parse_digits : ℕ → Bool → List ℕ → Option ℕ
parse_digits acc prev [] = if prev then some acc else none
parse_digits acc prev (c ∷ cs) =
    let rest = parse_digits (acc * 10 + (c - b'0')) true cs in
    if is_digit c
    then rest
    else if is_space c && prev
    then (elim (skip_spaces cs) [ [] ↦ some acc | _ ∷ _ ↦ none ])
    else none

abbrev negate : ℕ → ℤ
negate n = sub_ℕ 0 n

abbrev signed : List ℕ → Option ℤ
signed [] = none
signed (c ∷ cs) =
    if c == b'-'
    then (elim (parse_digits 0 false cs) [ none ↦ none | some n ↦ some (negate n) ])
    else elim (parse_digits 0 false (if c == b'+' then cs else c ∷ cs)) [
      | none ↦ none
      | some n ↦ some (pos n)
    ]

-- int(text); `none` is ValueError.
unfoldable pub int_of_text : String → Option ℤ
unfolding parse_digits
int_of_text s = signed (skip_spaces (codes s))

-- int(arg or fallback)
abbrev int_or : ℤ → PagingArg → Option ℤ
int_or fallback absent = some fallback
int_or fallback (int (pos n)) = if n == 0 then some fallback else some (pos n)
int_or fallback (int (negsuc n)) = some (negsuc n)
int_or fallback (text s) = elim (codes s) [ [] ↦ some fallback | _ ∷ _ ↦ int_of_text s ]

abbrev pub maxsize : ℕ
maxsize = 2 ^ 63 - 1

unfoldable pub bound_offset : Option ℤ → ℤ
bound_offset none = pos 0
bound_offset (some offset) =
    let offset' = if ltb_ℤ offset (pos 0) then pos 0 else offset in
    if ltb_ℤ (pos maxsize) offset' then pos 0 else offset'

unfoldable pub bound_limit : PagingConf → Option ℤ → ℤ
bound_limit conf none = conf.default_limit_paging
bound_limit conf (some limit) =
    let limit' = if ltb_ℤ limit (pos 1) then pos 1 else limit in
    if ltb_ℤ conf.max_limit_paging limit' then conf.max_limit_paging else limit'

-- Offset and limit.
unfoldable pub clean_paging_values : PagingConf → PagingArg → PagingArg → ℤ × ℤ
clean_paging_values conf offset_arg limit_arg = (
  bound_offset (int_or (pos 0) offset_arg),
  bound_limit conf (int_or conf.default_limit_paging limit_arg),
)

-- query.offset(start).limit(limit).all(), of a query with these rows
unfoldable pub page {ℓ} : {A : Type ℓ} → ℤ → ℤ → List A → List A
page offset limit rows = take (pos_part limit) (drop (pos_part offset) rows)

pub record ListHref : Type 0 where
  pub resources_name : String
  pub limit : ℤ
  pub offset : ℤ

unfoldable pub convert_list_to_href : String → ℤ → ℤ → ListHref
convert_list_to_href name offset limit = record {
  resources_name = name;
  limit = limit;
  offset = offset;
}

abbrev max_ℤ : ℤ → ℤ → ℤ
max_ℤ a b = if ltb_ℤ a b then b else a

unfoldable pub previous_href : String → ℤ → ℤ → ListHref
unfolding convert_list_to_href
previous_href name offset limit = convert_list_to_href name (max_ℤ (pos 0) (offset -ℤ limit)) limit

unfoldable pub next_href : String → ℤ → ℤ → ListHref
unfolding convert_list_to_href
next_href name offset limit = convert_list_to_href name (offset +ℤ limit) limit

-- A response dict with the two keys that `add_nav_hrefs` may add.
pub record Paged {ℓ} (D : Type ℓ) : Type ℓ where
  pub body : D
  pub previous : Option ListHref
  pub next : Option ListHref

unfoldable pub add_nav_hrefs {ℓ} : {D : Type ℓ} → String → ℤ → ℤ → ℤ → D → Paged D
unfolding previous_href next_href
add_nav_hrefs name offset limit total_elements body = record {
  body = body;
  previous = if ltb_ℤ (pos 0) offset then some (previous_href name offset limit) else none;
  next =
      if ltb_ℤ (offset +ℤ limit) total_elements then some (next_href name offset limit) else none;
}
