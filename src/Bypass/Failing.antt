-- ===== src/Bypass/Failing.antt =====
-- The reconciliation when iptables cannot run, or when some of its calls raise.
use ids_bachelor_thesis.Prelude.{
  ℕ, ◌≤◌, ◌≡◌, number_test, list_test, Bool, true, false, ◌||◌, List, keep, has, length,
}
use ids_bachelor_thesis.Bypass.Rules.{Cache}
use ids_bachelor_thesis.Bypass.Lines.{Line, needles_in}
use ids_bachelor_thesis.Bypass.Sync.{Iptables, Summary, minus, both}
use ids_bachelor_thesis.Bypass.Chain.{is_other}
use ids_bachelor_thesis.Bypass.Edits.{IsClean}
use ids_bachelor_thesis.Bypass.Partial.{IsPartial}

module _ {F : Type 0} (t : Iptables F) (chain : F → List Line) (is : IsPartial t chain) where
  abbrev at : List ℕ → F → Bool
  at a f = has a (needles_in (chain f))

  abbrev needles : F → List (List ℕ)
  needles f = needles_in (chain f)

  -- What is left of a chain, and the numbers reported, whichever calls raised.
  pub record IsSafe (wanted : List (List ℕ)) (f : F) (r : F × Summary) : Type 0 where
    pub clean : IsClean (chain r.0)
    pub others : keep is_other (chain r.0) ≡ keep is_other (chain f)
    pub kept : (a : List ℕ) → has a wanted ≡ true → at a f ≡ true → at a r.0 ≡ true
    pub only : (a : List ℕ) → at a r.0 ≡ true → (has a wanted || at a f) ≡ true
    pub root : r.1.root ≡ true
    pub added : r.1.added ≤ length (minus wanted (needles f))
    pub removed : r.1.removed ≤ length (minus (needles f) wanted)
    pub unchanged : r.1.unchanged ≡ length (both wanted (needles f))
    pub exact :
        r.1.added ≡ length (minus wanted (needles f))
        → r.1.removed ≡ length (minus (needles f) wanted)
        → (a : List ℕ) → at a r.0 ≡ has a wanted

  abbrev pub nothing_done : Summary
  nothing_done = record { root = false; added = 0; removed = 0; unchanged = 0 }

  -- What a synchronization leaves and reports, where iptables can run and where it cannot.
  abbrev pub IsSynced : Bool → List (List ℕ) → Cache → Cache → F → Cache × F × Summary → Type 0
  IsSynced false wanted cache cache' f r = r ≡ (cache, f, nothing_done)
  IsSynced true wanted cache cache' f r = (r.0 ≡ cache') × IsSafe wanted f (r.1, r.2)
