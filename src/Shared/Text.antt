-- ===== src/Shared/Text.antt =====
-- Texts walked character by character, as the lists of their code points. Case and white space are
-- those of ASCII.
use Prim.Native.Char.{code}
use Prim.Native.Nat.{ℕ, ◌+◌}
use Prim.Native.String.{String}
use mathlib.Core.Bool.{Bool, true, false, ◌&&◌, ◌||◌}
use mathlib.Core.List.{List, [], ◌∷◌, map}
use text.Mathlib.Text.{◌==◌ as str_eq}
use barbican.Shared.Tests.{leb, ◌==◌, if◌then◌else◌}

abbrev pub codes : String → List ℕ
codes String.[] = []
codes (String.◌∷◌ c s) = code c ∷ codes s

abbrev pub codes_eq : List ℕ → List ℕ → Bool
codes_eq [] [] = true
codes_eq [] (d ∷ ds) = false
codes_eq (c ∷ cs) [] = false
codes_eq (c ∷ cs) (d ∷ ds) = c == d && codes_eq cs ds

abbrev is_white : ℕ → Bool
is_white c = c == 32 || leb 9 c && leb c 13 || leb 28 c && leb c 31

abbrev strip_start : List ℕ → List ℕ
strip_start [] = []
strip_start (c ∷ cs) = let rest = strip_start cs in if is_white c then rest else c ∷ cs

abbrev end_with : ℕ → List ℕ → List ℕ
end_with c [] = if is_white c then [] else c ∷ []
end_with c (d ∷ ds) = c ∷ d ∷ ds

abbrev strip_end : List ℕ → List ℕ
strip_end [] = []
strip_end (c ∷ cs) = end_with c (strip_end cs)

-- str.strip
abbrev pub strip : List ℕ → List ℕ
strip cs = strip_end (strip_start cs)

-- str.lower
abbrev pub lower : List ℕ → List ℕ
lower cs = map (λ c. if leb b'A' c && leb c b'Z' then c + 32 else c) cs

abbrev split_at : ℕ → ℕ → List ℕ × List (List ℕ) → List ℕ × List (List ℕ)
split_at sep c (first, rest) = if c == sep then ([], first ∷ rest) else (c ∷ first, rest)

-- str.split of one character: the first part and the others.
abbrev pub split : ℕ → List ℕ → List ℕ × List (List ℕ)
split sep [] = ([], [])
split sep (c ∷ cs) = split_at sep c (split sep cs)

-- `s in texts`
abbrev pub text_in : String → List String → Bool
text_in s [] = false
text_in s (t ∷ ts) = str_eq t s || text_in s ts

abbrev pub codes_in : List ℕ → List String → Bool
codes_in cs [] = false
codes_in cs (t ∷ ts) = codes_eq cs (codes t) || codes_in cs ts
