-- ===== src/Text.antt =====
-- Texts as lists of code points, with the string methods that the program calls on ASCII text.
use Prim.Native.Char.{code}
use mathlib.Core.List.{reverse}
use ids_bachelor_thesis.Prelude.{
  ℕ, ◌+◌, ◌==◌, number_test, list_test, ◌-◌, ◌≢◌, Bool, true, false, ◌&&◌, ◌||◌, String, List, [],
  ◌∷◌, map, has, list_test, All, arith, leb, ltb, if◌then◌else◌,
}

abbrev pub codes : String → List ℕ
codes String.[] = []
codes (String.◌∷◌ c s) = code c ∷ codes s

-- `str.upper` on an ASCII character
unfoldable pub to_upper : ℕ → ℕ
to_upper c = if leb b'a' c && leb c b'z' then c - 32 else c

-- `str.lower` on an ASCII character
unfoldable pub to_lower : ℕ → ℕ
to_lower c = if leb b'A' c && leb c b'Z' then c + 32 else c

-- `s.lower() == word`
unfoldable pub is_lower_of : String → String → Bool
unfolding to_lower
is_lower_of s word = map to_lower (codes s) == codes word

-- `s.startswith(p)`
unfoldable pub starts_with : List ℕ → List ℕ → Bool
starts_with cs [] = true
starts_with [] (p ∷ ps) = false
starts_with (c ∷ cs) (p ∷ ps) = c == p && starts_with cs ps

-- `s + t`
unfoldable pub concat : String → String → String
concat String.[] t = t
concat (String.◌∷◌ c s) t = String.◌∷◌ c (concat s t)

-- `str.isascii`
unfoldable pub is_ascii : List ℕ → Bool
is_ascii [] = true
is_ascii (c ∷ cs) = ltb c 128 && is_ascii cs

-- `str.isspace` on an ASCII character
abbrev pub is_space : ℕ → Bool
is_space c = (leb 9 c && leb c 13) || (leb 28 c && leb c 32)

lstrip : List ℕ → List ℕ
lstrip [] = []
lstrip (c ∷ cs) = if is_space c then lstrip cs else c ∷ cs

-- `str.strip()`
unfoldable pub strip : List ℕ → List ℕ
unfolding lstrip
strip s = reverse (lstrip (reverse (lstrip s)))

abbrev pub newline : ℕ
newline = 10

abbrev pub NoNewline : List ℕ → Type 0
NoNewline = All (λ c. c ≢ newline)

to_upper-ne-newline : (c : ℕ) → c ≢ newline → to_upper c ≢ newline
unfolding to_upper
to_upper-ne-newline c h = ground arith

pub map-to_upper-NoNewline : (cs : List ℕ) → NoNewline cs → NoNewline (map to_upper cs)
map-to_upper-NoNewline [] h = tt
map-to_upper-NoNewline (c ∷ cs) h = (to_upper-ne-newline c h.0, map-to_upper-NoNewline cs h.1)

-- `a < b` for texts
unfoldable pub text_ltb : List ℕ → List ℕ → Bool
text_ltb [] [] = false
text_ltb [] (b ∷ bs) = true
text_ltb (a ∷ cs) [] = false
text_ltb (a ∷ cs) (b ∷ bs) = ltb a b || (a == b && text_ltb cs bs)

-- `set(xs)`, and `sorted` on texts
unfoldable pub set_of : List (List ℕ) → List (List ℕ)
set_of [] = []
set_of (x ∷ xs) = if has x xs then set_of xs else x ∷ set_of xs

unfoldable pub insert_text : List ℕ → List (List ℕ) → List (List ℕ)
unfolding text_ltb
insert_text x [] = x ∷ []
insert_text x (y ∷ ys) = if text_ltb y x then y ∷ insert_text x ys else x ∷ y ∷ ys

unfoldable pub sorted : List (List ℕ) → List (List ℕ)
unfolding insert_text
sorted [] = []
sorted (x ∷ xs) = insert_text x (sorted xs)
