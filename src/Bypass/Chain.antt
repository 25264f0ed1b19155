-- ===== src/Bypass/Chain.antt =====
-- The lines that `iptables -S` prints for the rules of ssl_inspect/bypass.py, and the needles in a
-- chain of lines.
use ids_bachelor_thesis.Prelude.{
  ℕ, ◌≡◌, ◌≢◌, refl, sym, ap, ◌∙◌, ◌==◌, number_test, list_test, Bool, true, false, none, some,
  List, [], ◌∷◌, ◌++◌, arith, keep, has, remove, remove-same, remove-differs, equal, not_equal, All,
  inl, inr, Bool-cases,
}
use ids_bachelor_thesis.Text.{codes, starts_with}
use ids_bachelor_thesis.Bypass.Lines.{
  Line, contains, quote, until_quote, not_empty, quoted, skip, search, needle_in, needles_in,
}

abbrev pub line_start : List ℕ
line_start = codes "-A PREROUTING -p tcp -m tcp --dport 443 -m string --string \""

abbrev pub line_end : List ℕ
line_end = codes "\" --algo bm --to 65535 -j RETURN"

-- The line for a needle.
unfoldable pub return_line : List ℕ → Line
return_line needle = line_start ++ (needle ++ line_end)

-- A needle that iptables prints as it is.
abbrev pub IsPlain : List ℕ → Type 0
IsPlain needle = (has quote needle ≡ false) × (needle ≢ [])

contains-append : (sub cs ds : List ℕ) → contains sub ds ≡ true → contains sub (cs ++ ds) ≡ true
unfolding contains
contains-append sub [] ds h = h
contains-append sub (c ∷ cs) ds h = ground (arith, contains-append sub cs ds)

until_quote-append :
    (needle rest : List ℕ)
    → has quote needle ≡ false
    → until_quote (needle ++ (quote ∷ rest)) ≡ some needle
unfolding until_quote
until_quote-append [] rest h = refl
until_quote-append (c ∷ needle) rest h = ground (arith, until_quote-append needle rest)

not_empty-plain : (needle : List ℕ) → needle ≢ [] → not_empty (some needle) ≡ some needle
not_empty-plain [] h = absurd (h refl)
not_empty-plain (c ∷ cs) h = refl

search_start :
    (rest : List ℕ) (needle : List ℕ)
    → not_empty (until_quote rest) ≡ some needle
    → search (line_start ++ rest) ≡ some needle
unfolding search starts_with quoted
search_start rest needle h = rw (search, h) refl

-- What iptables prints for a rule is read back as its needle.
pub needle_in-return_line :
    (needle : List ℕ) → IsPlain needle → needle_in (return_line needle) ≡ some needle
unfolding needle_in return_line
needle_in-return_line needle (no_quote, some_text) =
    let read : not_empty (until_quote (needle ++ line_end)) ≡ some needle =
      ap not_empty (until_quote-append needle (skip (codes "\"") line_end) no_quote)
      ∙ not_empty-plain needle some_text in
    let returns : contains (codes "-j RETURN") (line_start ++ (needle ++ line_end)) ≡ true =
      contains-append (codes "-j RETURN") line_start (needle ++ line_end)
        (contains-append (codes "-j RETURN") needle line_end ends) in
    rw returns (search_start (needle ++ line_end) needle read)
  where
    ends : contains (codes "-j RETURN") line_end ≡ true
    ends = refl

-- A line holds no needle, or is the line for a plain one.
pub data IsManaged : Line → Type 0 where
  other : (line : Line) → needle_in line ≡ none → IsManaged line
  ours : (needle : List ℕ) → IsPlain needle → IsManaged (return_line needle)

abbrev pub is_other : Line → Bool
is_other line = elim (needle_in line) [ none ↦ true | some needle ↦ false ]

return_line-injective :
    (a b : List ℕ) → IsPlain a → IsPlain b → return_line a ≡ return_line b → a ≡ b
return_line-injective a b pa pb h =
    some_injective (sym (needle_in-return_line a pa) ∙ ap needle_in h ∙ needle_in-return_line b pb)
  where
    some_injective : some a ≡ some b → a ≡ b
    some_injective e = cc e

pub none_step :
    (line : Line) (chain : List Line)
    → needle_in line ≡ none
    → (needles_in (line ∷ chain) ≡ needles_in chain)
      × (keep is_other (line ∷ chain) ≡ line ∷ keep is_other chain)
unfolding needles_in
none_step line chain h = (rw (needles_in, h) refl, rw (is_other, h) refl)

pub some_step :
    (line : Line) (needle : List ℕ) (chain : List Line)
    → needle_in line ≡ some needle
    → (needles_in (line ∷ chain) ≡ needle ∷ needles_in chain)
      × (keep is_other (line ∷ chain) ≡ keep is_other chain)
unfolding needles_in
some_step line needle chain h = (rw (needles_in, h) refl, rw (is_other, h) refl)

-- Taking the line of a needle out of a chain takes the needle out, and nothing else.
pub remove-return_line :
    (needle : List ℕ) (chain : List Line)
    → IsPlain needle
    → All IsManaged chain
    → All IsManaged (remove (return_line needle) chain)
      × (needles_in (remove (return_line needle) chain) ≡ remove needle (needles_in chain))
      × (keep is_other (remove (return_line needle) chain) ≡ keep is_other chain)
unfolding needles_in
remove-return_line needle [] plain m = (tt, refl, refl)
remove-return_line needle (line ∷ chain) plain (IsManaged.other _ no_needle, m) =
    let (m', n, o) = remove-return_line needle chain plain m in
    let (n1, o1) = none_step line chain no_needle in
    let (n2, o2) = none_step line (remove (return_line needle) chain) no_needle in
    let differs : line ≢ return_line needle =
      λ e. none_not_some (sym no_needle ∙ ap needle_in e ∙ needle_in-return_line needle plain) in
    let e = remove-differs (return_line needle) line chain differs in
    rw e (
      (IsManaged.other line no_needle, m'),
      n2 ∙ n ∙ ap (remove needle) (sym n1),
      o2 ∙ ap (λ l. line ∷ l) o ∙ sym o1,
    )
  where
    none_not_some : none ≢ some needle
    none_not_some e = cc e
remove-return_line needle (line ∷ chain) plain (IsManaged.ours found plain', m) =
    let (m', n, o) = remove-return_line needle chain plain m in
    let at = needle_in-return_line found plain' in
    let (n1, o1) = some_step (return_line found) found chain at in
    let (n2, o2) = some_step (return_line found) found (remove (return_line needle) chain) at in
    elim (Bool-cases (found == needle)) [
      | inl is ↦
          let same = equal found needle is in
          let e =
            remove-same (return_line needle) (return_line found) chain (ap return_line same) in
          rw e (
            m,
            sym (ap (remove needle) n1 ∙ remove-same needle found (needles_in chain) same),
            sym o1,
          )
      | inr is_not ↦
          let differs = not_equal found needle is_not in
          let e =
            remove-differs (return_line needle) (return_line found) chain
              (λ h. differs (return_line-injective found needle plain' plain h)) in
          rw e (
            (IsManaged.ours found plain', m'),
            n2
                ∙ ap (λ l. found ∷ l) n
                ∙ sym (
                    ap (remove needle) n1 ∙ remove-differs needle found (needles_in chain) differs),
            o2 ∙ o ∙ sym o1,
          )
    ]
