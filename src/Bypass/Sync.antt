-- ===== src/Bypass/Sync.antt =====
-- `sync_iptables` and `iptables_status` of ssl_inspect/bypass.py, over the state `F` of the firewall.
use ids_bachelor_thesis.Prelude.{
  ℕ, ◌+◌, list_test, number_test, Bool, true, false, not, Option, none, some, List, [], ◌∷◌, keep,
  has, length, if◌then◌else◌,
}
use ids_bachelor_thesis.Text.{set_of, sorted}
use ids_bachelor_thesis.Bypass.Rules.{Cache, Rule, refresh, sni_needles}
use ids_bachelor_thesis.Bypass.Lines.{Line, needles_in}

-- The program iptables, as this process may run it. `list_rules` is none where it answers with an
-- error, the others where they raise.
pub record Iptables (F : Type 0) : Type 0 where
  pub list_rules : F → Option (List Line)
  pub insert_rule : (needle : List ℕ) → F → Option F
  pub delete_rule : (needle : List ℕ) → F → Option F

pub record Summary : Type 0 where
  pub root : Bool
  pub added : ℕ
  pub removed : ℕ
  pub unchanged : ℕ

pub record Status : Type 0 where
  pub root : Bool
  pub want : List (List ℕ)
  pub present : List (List ℕ)
  pub missing : List (List ℕ)
  pub stale : List (List ℕ)

-- `a - b` and `a & b` for sets
abbrev pub minus : List (List ℕ) → List (List ℕ) → List (List ℕ)
minus a b = keep (λ x. not (has x b)) a

abbrev pub both : List (List ℕ) → List (List ℕ) → List (List ℕ)
both a b = keep (λ x. has x b) a

module _ {F : Type 0} (t : Iptables F) where
  -- `_installed_needles`
  unfoldable pub installed_needles : F → List (List ℕ)
  unfolding set_of needles_in
  installed_needles f = elim (t.list_rules f) [ none ↦ [] | some lines ↦ set_of (needles_in lines) ]

  abbrev pub or_else : F → Option F → F × ℕ
  or_else f none = (f, 0)
  or_else f (some f') = (f', 1)

  -- One call for each needle, and how many did not raise.
  unfoldable pub each : (List ℕ → F → Option F) → List (List ℕ) → F → F × ℕ
  each edit [] f = (f, 0)
  each edit (needle ∷ needles) f =
      let (f', n) = or_else f (edit needle f) in
      let (f'', rest) = each edit needles f' in (f'', n + rest)

  -- The reconciliation of what is installed with what is wanted
  unfoldable pub reconcile_from : (wanted installed : List (List ℕ)) → F → F × Summary
  unfolding each sorted
  reconcile_from wanted installed f =
      let (f1, added) = each t.insert_rule (sorted (minus wanted installed)) f in
      let (f2, removed) = each t.delete_rule (sorted (minus installed wanted)) f1 in
      (
        f2,
        record {
          root = true;
          added = added;
          removed = removed;
          unchanged = length (both wanted installed);
        },
      )

  unfoldable pub reconcile : (wanted : List (List ℕ)) → F → F × Summary
  unfolding installed_needles reconcile_from
  reconcile wanted f = reconcile_from wanted (installed_needles f) f

  -- `can_run` is the answer of `_can_run_iptables`; `load` are the rules of the database.
  unfoldable pub sync_iptables :
      (can_run : Bool) → (now : ℕ) → Option (List Rule) → Cache → F → Cache × F × Summary
  unfolding reconcile sni_needles refresh
  sync_iptables can_run now load cache f =
      if not can_run
      then (cache, f, record { root = false; added = 0; removed = 0; unchanged = 0 })
      else let cache' = refresh false now load cache in
        let (f', summary) = reconcile (set_of (sni_needles cache'.rules)) f in (cache', f', summary)

  unfoldable pub iptables_status :
      (can_run : Bool) → (now : ℕ) → Option (List Rule) → Cache → F → Cache × Status
  unfolding sni_needles refresh installed_needles sorted
  iptables_status can_run now load cache f =
      let cache' = refresh false now load cache in
      let want = set_of (sni_needles cache'.rules) in
      let installed = installed_needles f in
      if not can_run
      then (
        cache',
        record {
          root = false;
          want = sorted want;
          present = [];
          missing = sorted want;
          stale = [];
        },
      )
      else (
        cache',
        record {
          root = true;
          want = sorted want;
          present = sorted installed;
          missing = sorted (minus want installed);
          stale = sorted (minus installed want);
        },
      )
