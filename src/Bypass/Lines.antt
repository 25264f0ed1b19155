-- ===== src/Bypass/Lines.antt =====
-- How ssl_inspect/bypass.py reads a line of `iptables -S`.
use ids_bachelor_thesis.Prelude.{
  ℕ, ◌==◌, number_test, Bool, ◌||◌, Option, none, some, List, [], ◌∷◌, if◌then◌else◌,
}
use ids_bachelor_thesis.Text.{codes, starts_with, is_space}

abbrev pub Line : Type 0
Line = List ℕ

-- `sub in line`
unfoldable pub contains : List ℕ → Line → Bool
unfolding starts_with
contains sub [] = starts_with [] sub
contains sub (c ∷ cs) = starts_with (c ∷ cs) sub || contains sub cs

abbrev pub quote : ℕ
quote = 34

abbrev pub after : ℕ → Option (List ℕ) → Option (List ℕ)
after c none = none
after c (some cs) = some (c ∷ cs)

-- the text before the next quote, if there is one
unfoldable pub until_quote : List ℕ → Option (List ℕ)
until_quote [] = none
until_quote (c ∷ cs) = if c == quote then some [] else after c (until_quote cs)

abbrev pub not_empty : Option (List ℕ) → Option (List ℕ)
not_empty none = none
not_empty (some []) = none
not_empty (some (c ∷ cs)) = some (c ∷ cs)

-- `\s*"([^"]+)"`
unfoldable pub quoted : List ℕ → Option (List ℕ)
unfolding until_quote
quoted [] = none
quoted (c ∷ cs) =
    if c == quote then not_empty (until_quote cs) else if is_space c then quoted cs else none

-- `\s+"([^"]+)"`
abbrev pub spaced : List ℕ → Option (List ℕ)
spaced [] = none
spaced (c ∷ cs) = if is_space c then quoted cs else none

abbrev pub skip : List ℕ → List ℕ → List ℕ
skip [] cs = cs
skip (p ∷ ps) [] = []
skip (p ∷ ps) (c ∷ cs) = skip ps cs

abbrev pub match_here : Line → Option (List ℕ)
match_here cs =
    if starts_with cs (codes "--string") then spaced (skip (codes "--string") cs) else none

-- `_STRING_RE.search(line)`, and the group of the match
unfoldable pub search : Line → Option (List ℕ)
unfolding starts_with quoted
search [] = none
search (c ∷ cs) = elim (match_here (c ∷ cs)) [ some needle ↦ some needle | none ↦ search cs ]

unfoldable pub needle_in : Line → Option (List ℕ)
unfolding contains search
needle_in line = if contains (codes "-j RETURN") line then search line else none

unfoldable pub needles_in : List Line → List (List ℕ)
unfolding needle_in
needles_in [] = []
needles_in (line ∷ lines) = elim (needle_in line) [
  | none ↦ needles_in lines
  | some needle ↦ needle ∷ needles_in lines
]
