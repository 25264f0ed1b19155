-- ===== src/Bypass/Edits.antt =====
-- What one call of iptables does to the needles of a clean chain, and to its other lines.
use ids_bachelor_thesis.Prelude.{
  ℕ, ◌≡◌, ap, subst, sym, ◌∙◌, ◌==◌, number_test, list_test, Bool, true, false, not, ◌&&◌, ◌||◌,
  some, List, [], ◌∷◌, arith, keep, has, remove, remove-Distinct, has-remove_same, has-remove_other,
  equal, not_equal, All, Distinct, inl, inr, Bool-cases,
}
use ids_bachelor_thesis.Bypass.Lines.{Line, needles_in}
use ids_bachelor_thesis.Bypass.Sync.{Iptables}
use ids_bachelor_thesis.Bypass.Chain.{
  IsPlain, IsManaged, is_other, return_line, needle_in-return_line, remove-return_line, some_step,
  none_step,
}

-- What iptables does when every call works: it prints the lines of the chain, puts the line of a rule first, and takes out
-- the first line that is the rule's.
pub record IsIptables {F : Type 0} (t : Iptables F) (chain : F → List Line) : Type 0 where
  pub lists : (f : F) → t.list_rules f ≡ some (chain f)
  pub inserts :
      (needle : List ℕ) (f : F)
      → (f' : F) × (t.insert_rule needle f ≡ some f') × (chain f' ≡ return_line needle ∷ chain f)
  pub deletes :
      (needle : List ℕ) (f : F)
      → (f' : F) × (t.delete_rule needle f ≡ some f')
        × (chain f' ≡ remove (return_line needle) (chain f))

-- The abstract firewall: which needles pass, and what else stands in the chain.
pub record Firewall : Type 0 where
  pub passes : List ℕ → Bool
  pub others : List Line

abbrev pub view : List Line → Firewall
view lines = record {
  passes = λ needle. has needle (needles_in lines);
  others = keep is_other lines;
}

-- No needle stands in the chain twice, and each has the line that this program writes.
pub record IsClean (lines : List Line) : Type 0 where
  pub managed : All IsManaged lines
  pub distinct : Distinct (needles_in lines)

abbrev pub AllPlain : List (List ℕ) → Type 0
AllPlain needles = (a : List ℕ) → has a needles ≡ true → IsPlain a

pub IsManaged-AllPlain : (lines : List Line) → All IsManaged lines → AllPlain (needles_in lines)
unfolding needles_in
IsManaged-AllPlain [] m a h = absurd (ground arith)
IsManaged-AllPlain (line ∷ lines) (IsManaged.other _ no_needle, m) a h =
    IsManaged-AllPlain lines m a (ap (has a) (sym (none_step line lines no_needle).0) ∙ h)
IsManaged-AllPlain (line ∷ lines) (IsManaged.ours needle plain, m) a h =
    elim (Bool-cases (needle == a)) [
      | inl same ↦ subst IsPlain (equal needle a same) plain
      | inr differs ↦ IsManaged-AllPlain lines m a (
          let e =
            ap (has a)
              (some_step (return_line needle) needle lines
                (needle_in-return_line needle plain)).0 in
          ground (arith, e))
    ]

-- A chain with one more line of ours.
pub add_line :
    (needle : List ℕ) (lines : List Line)
    → IsPlain needle
    → has needle (needles_in lines) ≡ false
    → IsClean lines
    → IsClean (return_line needle ∷ lines)
      × ((a : List ℕ)
          → has a (needles_in (return_line needle ∷ lines))
            ≡ (needle == a || has a (needles_in lines)))
      × (keep is_other (return_line needle ∷ lines) ≡ keep is_other lines)
add_line needle lines plain out clean =
    let (n, o) = some_step (return_line needle) needle lines (needle_in-return_line needle plain) in
    (
      record {
        managed = (IsManaged.ours needle plain, clean.managed);
        distinct = rw n (out, clean.distinct);
      },
      λ a. ap (has a) n,
      o,
    )

-- A chain with one line of ours less.
pub take_line :
    (needle : List ℕ) (lines : List Line)
    → IsPlain needle
    → IsClean lines
    → IsClean (remove (return_line needle) lines)
      × ((a : List ℕ)
          → has a (needles_in (remove (return_line needle) lines))
            ≡ (has a (needles_in lines) && not (needle == a)))
      × (keep is_other (remove (return_line needle) lines) ≡ keep is_other lines)
take_line needle lines plain clean =
    let (m, n, o) = remove-return_line needle lines plain clean.managed in
    (
      record {
        managed = m;
        distinct = rw n (remove-Distinct needle (needles_in lines) clean.distinct);
      },
      λ a. ap (has a) n ∙ has_after a,
      o,
    )
  where
    has_after :
        (a : List ℕ)
        → has a (remove needle (needles_in lines)) ≡ (has a (needles_in lines) && not (needle == a))
    has_after a = elim (Bool-cases (needle == a)) [
      | inl same ↦
          let out = has-remove_same needle (needles_in lines) clean.distinct in
          ground (arith, ap (λ k. has k (remove needle (needles_in lines))) (equal needle a same))
      | inr differs ↦
          let e =
            has-remove_other a needle (needles_in lines)
              (λ h. not_equal needle a differs (sym h)) in
          ground (arith, e)
    ]
