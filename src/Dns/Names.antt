-- ===== src/Dns/Names.antt =====
-- `_base_domain` of engine/dns_behavior.py. A text is a list of code points.
use mathlib.Core.List.{reverse}
use ids_bachelor_thesis.Prelude.{
  ℕ, ◌==◌, number_test, list_test, List, [], ◌∷◌, ◌++◌, map, has, if◌then◌else◌,
}
use ids_bachelor_thesis.Text.{codes, to_lower}

abbrev pub dot : ℕ
dot = b'.'

drop_dots : List ℕ → List ℕ
drop_dots [] = []
drop_dots (c ∷ cs) = if c == dot then drop_dots cs else c ∷ cs

-- `strip(".")`
unfoldable pub strip_dots : List ℕ → List ℕ
unfolding drop_dots
strip_dots s = reverse (drop_dots (reverse (drop_dots s)))

abbrev cons_first : ℕ → List (List ℕ) → List (List ℕ)
cons_first c [] = (c ∷ []) ∷ []
cons_first c (part ∷ parts) = (c ∷ part) ∷ parts

-- `split(".")`
unfoldable pub split_dots : List ℕ → List (List ℕ)
split_dots [] = [] ∷ []
split_dots (c ∷ cs) = if c == dot then [] ∷ split_dots cs else cons_first c (split_dots cs)

-- `[p for p in parts if p]`
unfoldable pub not_empty : List (List ℕ) → List (List ℕ)
not_empty [] = []
not_empty (part ∷ parts) = if part == [] then not_empty parts else part ∷ not_empty parts

unfoldable pub join_dots : List (List ℕ) → List ℕ
join_dots [] = []
join_dots (part ∷ []) = part
join_dots (part ∷ next ∷ parts) = part ++ dot ∷ join_dots (next ∷ parts)

-- `_TWO_LEVEL_SUFFIXES`
abbrev pub two_level_suffixes : List (List ℕ)
two_level_suffixes = map codes (
    "co.uk" ∷ "ac.uk" ∷ "gov.uk" ∷ "org.uk" ∷ "co.jp" ∷ "ne.jp" ∷ "or.jp" ∷ "com.au" ∷ "net.au"
    ∷ "org.au" ∷ "com.br" ∷ "com.cn" ∷ "com.tr" ∷ [])

-- The choice, for the parts from the last one on.
abbrev pub base_of : List ℕ → List (List ℕ) → List ℕ
base_of q (c ∷ b ∷ a ∷ rest) =
    if has (join_dots (b ∷ c ∷ [])) two_level_suffixes
    then join_dots (a ∷ b ∷ c ∷ [])
    else join_dots (b ∷ c ∷ [])
base_of q (c ∷ b ∷ []) = q
base_of q (c ∷ []) = q
base_of q [] = q

unfoldable pub base_domain : List ℕ → List ℕ
unfolding strip_dots split_dots not_empty join_dots to_lower
base_domain qname =
    let q = map to_lower (strip_dots qname) in base_of q (reverse (not_empty (split_dots q)))
