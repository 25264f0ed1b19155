-- ===== src/Mitre/Defs.antt =====
-- `classify` of intelligence/mitre.py: the techniques that the reasons of a packet stand for.
use ids_bachelor_thesis.Prelude.{
  ℕ, zero, suc, ◌+◌, ◌++◌, Bool, true, false, ◌&&◌, ◌||◌, String, Option, none, some, List, [], ◌∷◌,
  ◌==◌, number_test, text_test, ltb, if◌then◌else◌,
}
use ids_bachelor_thesis.Dict.{Dict, get}
use ids_bachelor_thesis.Text.{codes, starts_with, is_lower_of, concat}
use ids_bachelor_thesis.Mitre.Table.{Technique, tactics, reason_to_technique}

-- The entry under the key that is the lower-case form of `r`.
unfoldable pub get_lower : Dict String (Option Technique) → String → Option (Option Technique)
unfolding is_lower_of
get_lower [] r = none
get_lower ((k, e) ∷ d) r = if is_lower_of r k then some e else get_lower d r

-- An entry that is None counts as no entry.
abbrev pub entry_of : Option (Option Technique) → Option Technique
entry_of none = none
entry_of (some e) = e

abbrev pub or_else : Option Technique → Option Technique → Option Technique
or_else none other = other
or_else (some e) other = some e

drop : ℕ → String → String
drop zero s = s
drop (suc n) String.[] = String.[]
drop (suc n) (String.◌∷◌ c s) = drop n s

unfoldable pub technique_of : String → Option Technique
unfolding get_lower drop concat
technique_of r =
    let exact = entry_of (get reason_to_technique r) in
    let lower = entry_of (get_lower reason_to_technique r) in
    let other = entry_of (get reason_to_technique (concat "http_" (drop 8 r))) in
    or_else (or_else exact (if starts_with (codes r) (codes "http_") then lower else none))
      (if starts_with (codes r) (codes "payload_") then other else none)

unfoldable pub has_technique : String → List Technique → Bool
has_technique t [] = false
has_technique t (e ∷ found) = e.technique == t || has_technique t found

-- `if tech not in found: found[tech] = entry`; the values of the dict, in its order
unfoldable pub add_technique : List Technique → Option Technique → List Technique
add_technique found none = found
add_technique found (some e) = if has_technique e.technique found then found else found ++ e ∷ []

unfoldable pub collect : List Technique → List String → List Technique
unfolding add_technique
collect found [] = found
collect found (r ∷ reasons) = collect (add_technique found (technique_of r)) reasons

-- `_TACTIC_RANK.get(tactic, 999)`
unfoldable pub rank_in : List String → ℕ → String → ℕ
rank_in [] i t = 999
rank_in (x ∷ xs) i t = if x == t then i else rank_in xs (i + 1) t

abbrev pub rank : Technique → ℕ
rank e = rank_in tactics 0 e.tactic

-- `s <= t` on texts
unfoldable pub text_leb : List ℕ → List ℕ → Bool
text_leb [] t = true
text_leb (a ∷ s) [] = false
text_leb (a ∷ s) (b ∷ t) = ltb a b || (a == b && text_leb s t)

-- the order of the keys `(rank, technique)`
unfoldable pub key_leb : Technique → Technique → Bool
unfolding text_leb
key_leb a b =
    ltb (rank a) (rank b) || (rank a == rank b && text_leb (codes a.technique) (codes b.technique))

-- `sorted` is stable: an entry goes before the first whose key is not smaller.
unfoldable pub insert_sorted : Technique → List Technique → List Technique
insert_sorted e [] = e ∷ []
insert_sorted e (x ∷ xs) = if key_leb e x then e ∷ x ∷ xs else x ∷ insert_sorted e xs

unfoldable pub sorted : List Technique → List Technique
unfolding insert_sorted
sorted [] = []
sorted (e ∷ es) = insert_sorted e (sorted es)

-- `out[:n]`
unfoldable pub take : ℕ → List Technique → List Technique
take zero es = []
take (suc n) [] = []
take (suc n) (e ∷ es) = e ∷ take n es

unfoldable pub classify : List String → List Technique
unfolding take sorted collect
classify reasons = take 12 (sorted (collect [] reasons))
