-- ===== src/Mitre/Order.antt =====
-- `classify` answers at most 12 entries of the table, in the order of their keys.
use ids_bachelor_thesis.Prelude.{
  ℕ, zero, suc, ◌≤◌, ◌≡◌, refl, inl, inr, ◌||◌, true, false, String, Option, none, some, List, [],
  ◌∷◌, ◌++◌, arith, length, Bool-cases, ◌==◌, number_test, text_test,
}
use ids_bachelor_thesis.Text.{codes}
use ids_bachelor_thesis.Mitre.Table.{Technique}
use ids_bachelor_thesis.Mitre.Defs.{
  technique_of, has_technique, add_technique, collect, text_leb, key_leb, insert_sorted, sorted,
  take, classify,
}

text_leb_total : (s t : List ℕ) → text_leb s t ≡ false → text_leb t s ≡ true
unfolding text_leb
text_leb_total [] t h = ground arith
text_leb_total (a ∷ s) [] h = refl
text_leb_total (a ∷ s) (b ∷ t) h = ground (arith, text_leb_total s t)

key_leb_total : (a b : Technique) → key_leb a b ≡ false → key_leb b a ≡ true
unfolding key_leb
key_leb_total a b h = ground (arith, text_leb_total (codes a.technique) (codes b.technique))

abbrev Below : Technique → List Technique → Type 0
Below e [] = Unit
Below e (x ∷ xs) = key_leb e x ≡ true

-- Each key is at most the next one.
abbrev pub IsOrdered : List Technique → Type 0
IsOrdered [] = Unit
IsOrdered (e ∷ es) = Below e es × IsOrdered es

-- No technique occurs twice.
abbrev pub IsDistinct : List Technique → Type 0
IsDistinct [] = Unit
IsDistinct (e ∷ es) = (has_technique e.technique es ≡ false) × IsDistinct es

insert_sorted-Below :
    (x e : Technique) (es : List Technique)
    → key_leb x e ≡ true
    → Below x es
    → Below x (insert_sorted e es)
unfolding insert_sorted
insert_sorted-Below x e [] h b = h
insert_sorted-Below x e (y ∷ es) h b = elim (Bool-cases (key_leb e y)) [
  | inl first ↦ rw first h
  | inr later ↦ rw later b
]

insert_sorted-IsOrdered :
    (e : Technique) (es : List Technique) → IsOrdered es → IsOrdered (insert_sorted e es)
unfolding insert_sorted
insert_sorted-IsOrdered e [] h = (tt, tt)
insert_sorted-IsOrdered e (x ∷ es) h = elim (Bool-cases (key_leb e x)) [
  | inl first ↦ rw first (first, h)
  | inr later ↦
      rw later
        (insert_sorted-Below x e es (key_leb_total e x later) h.0, insert_sorted-IsOrdered e es h.1)
]

has_technique-insert_sorted :
    (t : String) (e : Technique) (es : List Technique)
    → has_technique t (insert_sorted e es) ≡ has_technique t (e ∷ es)
unfolding insert_sorted has_technique
has_technique-insert_sorted t e [] = refl
has_technique-insert_sorted t e (x ∷ es) = ground (arith, has_technique-insert_sorted t e es)

insert_sorted-IsDistinct :
    (e : Technique) (es : List Technique)
    → has_technique e.technique es ≡ false
    → IsDistinct es
    → IsDistinct (insert_sorted e es)
unfolding insert_sorted has_technique
insert_sorted-IsDistinct e [] new h = (refl, tt)
insert_sorted-IsDistinct e (x ∷ es) new h = elim (Bool-cases (key_leb e x)) [
  | inl first ↦ rw first (new, h)
  | inr later ↦ rw later (
    ground (
      arith,
      has_technique-insert_sorted x.technique e es,
      text_test.test_iff e.technique x.technique,
      text_test.test_iff x.technique e.technique,
    ),
    insert_sorted-IsDistinct e es (ground arith) h.1,
  )
]

has_technique-sorted :
    (t : String) (es : List Technique) → has_technique t (sorted es) ≡ has_technique t es
unfolding sorted has_technique
has_technique-sorted t [] = refl
has_technique-sorted t (e ∷ es) =
    ground (arith, has_technique-insert_sorted t e (sorted es), has_technique-sorted t es)

sorted-IsOrdered : (es : List Technique) → IsOrdered (sorted es)
unfolding sorted
sorted-IsOrdered [] = tt
sorted-IsOrdered (e ∷ es) = insert_sorted-IsOrdered e (sorted es) (sorted-IsOrdered es)

sorted-IsDistinct : (es : List Technique) → IsDistinct es → IsDistinct (sorted es)
unfolding sorted
sorted-IsDistinct [] h = tt
sorted-IsDistinct (e ∷ es) h =
    insert_sorted-IsDistinct e (sorted es) (rw (has_technique-sorted e.technique es) h.0)
      (sorted-IsDistinct es h.1)

has_technique-append :
    (t : String) (es : List Technique) (e : Technique)
    → has_technique t (es ++ e ∷ []) ≡ (has_technique t es || e.technique == t)
unfolding has_technique
has_technique-append t [] e = ground arith
has_technique-append t (x ∷ es) e = ground (arith, has_technique-append t es e)

append-IsDistinct :
    (es : List Technique) (e : Technique)
    → has_technique e.technique es ≡ false
    → IsDistinct es
    → IsDistinct (es ++ e ∷ [])
unfolding has_technique
append-IsDistinct [] e new h = (refl, tt)
append-IsDistinct (x ∷ es) e new h = (
  ground (
    arith,
    has_technique-append x.technique es e,
    text_test.test_iff e.technique x.technique,
    text_test.test_iff x.technique e.technique,
  ),
  append-IsDistinct es e (ground arith) h.1,
)

add_technique-IsDistinct :
    (found : List Technique) (o : Option Technique)
    → IsDistinct found
    → IsDistinct (add_technique found o)
unfolding add_technique
add_technique-IsDistinct found none h = h
add_technique-IsDistinct found (some e) h = elim (Bool-cases (has_technique e.technique found)) [
  | inl old ↦ rw old h
  | inr new ↦ rw new (append-IsDistinct found e new h)
]

collect-IsDistinct :
    (reasons : List String) (found : List Technique)
    → IsDistinct found
    → IsDistinct (collect found reasons)
unfolding collect
collect-IsDistinct [] found h = h
collect-IsDistinct (r ∷ reasons) found h =
    collect-IsDistinct reasons (add_technique found (technique_of r))
      (add_technique-IsDistinct found (technique_of r) h)

take-Below : (n : ℕ) (e : Technique) (es : List Technique) → Below e es → Below e (take n es)
unfolding take
take-Below zero e es h = tt
take-Below (suc n) e [] h = tt
take-Below (suc n) e (x ∷ es) h = h

take-IsOrdered : (n : ℕ) (es : List Technique) → IsOrdered es → IsOrdered (take n es)
unfolding take
take-IsOrdered zero es h = tt
take-IsOrdered (suc n) [] h = tt
take-IsOrdered (suc n) (e ∷ es) h = (take-Below n e es h.0, take-IsOrdered n es h.1)

has_technique-take :
    (n : ℕ) (t : String) (es : List Technique)
    → has_technique t es ≡ false
    → has_technique t (take n es) ≡ false
unfolding take has_technique
has_technique-take zero t es h = refl
has_technique-take (suc n) t [] h = refl
has_technique-take (suc n) t (e ∷ es) h = ground (arith, has_technique-take n t es)

take-IsDistinct : (n : ℕ) (es : List Technique) → IsDistinct es → IsDistinct (take n es)
unfolding take
take-IsDistinct zero es h = tt
take-IsDistinct (suc n) [] h = tt
take-IsDistinct (suc n) (e ∷ es) h =
    (has_technique-take n e.technique es h.0, take-IsDistinct n es h.1)

length-take : (n : ℕ) (es : List Technique) → length (take n es) ≤ n
unfolding take
length-take zero es = omega arith
length-take (suc n) [] = omega arith
length-take (suc n) (e ∷ es) = let h = length-take n es in ground arith

-- `classify` answers at most 12 techniques, none of them twice, by tactic and then by technique.
pub classify-IsOrdered :
    (reasons : List String)
    → IsOrdered (classify reasons)
      × IsDistinct (classify reasons)
      × (length (classify reasons) ≤ 12)
unfolding classify
classify-IsOrdered reasons =
    let found = collect [] reasons in
    (
      take-IsOrdered 12 (sorted found) (sorted-IsOrdered found),
      take-IsDistinct 12 (sorted found)
          (sorted-IsDistinct found (collect-IsDistinct reasons [] tt)),
      length-take 12 (sorted found),
    )
