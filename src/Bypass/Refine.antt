-- ===== src/Bypass/Refine.antt =====
-- The reconciliation against a description of it: the needles that let a connection pass, as a
-- set, and the other lines of the chain.
use mathlib.Core.Path.{fun_ext}
use ids_bachelor_thesis.Prelude.{
  ℕ, ◌+◌, ◌≡◌, refl, ap, subst, sym, ◌∙◌, ◌==◌, number_test, list_test, Bool, true, false, not,
  ◌&&◌, ◌||◌, Option, some, List, [], ◌∷◌, arith, keep, has, keep-Distinct, equal, test_self,
  Distinct, length, inl, inr, Bool-cases,
}
use ids_bachelor_thesis.Text.{sorted}
use ids_bachelor_thesis.Bypass.Rules.{Rule, Cache, refresh, sni_needles, needles_of}
use ids_bachelor_thesis.Bypass.Lines.{Line, quote, needles_in}
use ids_bachelor_thesis.Bypass.Sync.{
  Iptables, Summary, minus, both, installed_needles, or_else, each, reconcile_from, reconcile,
  sync_iptables,
}
use ids_bachelor_thesis.Bypass.Sets.{
  set_of-same, has-sorted, sorted-Distinct, length-sorted, has-minus, minus-none, both-all,
  sni_needles-set, needles_of-not_empty,
}
use ids_bachelor_thesis.Bypass.Chain.{is_other}
use ids_bachelor_thesis.Bypass.Edits.{
  IsIptables, view, IsClean, AllPlain, IsManaged-AllPlain, add_line, take_line,
}

refresh-again :
    (now : ℕ) (load : Option (List Rule)) (cache : Cache)
    → refresh false now load (refresh false now load cache) ≡ refresh false now load cache
unfolding refresh
refresh-again now load cache = ground arith

module _ {F : Type 0} (t : Iptables F) (chain : F → List Line) (is : IsIptables t chain) where
  abbrev needles : F → List (List ℕ)
  needles f = needles_in (chain f)

  each-step :
      (edit : List ℕ → F → Option F) (w : List ℕ) (ws : List (List ℕ)) (f f' : F)
      → edit w f ≡ some f'
      → ((each t edit (w ∷ ws) f).0 ≡ (each t edit ws f').0)
        × ((each t edit (w ∷ ws) f).1 ≡ 1 + (each t edit ws f').1)
  unfolding each
  each-step edit w ws f f' e = (rw (or_else, e) refl, rw (or_else, e) refl)

  -- The chain after some calls, of which `n` did not raise.
  record IsEdited (f : F) (passes : List ℕ → Bool) (n : ℕ) (r : F × ℕ) : Type 0 where
    pub clean : IsClean (chain r.0)
    pub passed : (a : List ℕ) → has a (needles r.0) ≡ passes a
    pub kept : keep is_other (chain r.0) ≡ keep is_other (chain f)
    pub count : r.1 ≡ n

  each-inserts :
      (ws : List (List ℕ)) (f : F)
      → Distinct ws
      → AllPlain ws
      → ((a : List ℕ) → has a ws ≡ true → has a (needles f) ≡ false)
      → IsClean (chain f)
      → IsEdited f (λ a. has a ws || has a (needles f)) (length ws) (each t t.insert_rule ws f)
  unfolding each
  each-inserts [] f d p out c = record { clean = c; passed = λ a. refl; kept = refl; count = refl }
  each-inserts (w ∷ ws) f d p out c =
      let here : has w (w ∷ ws) ≡ true = ground (arith, test_self w) in
      let (f', e, ch) = is.inserts w f in
      let (c', n, o) = add_line w (chain f) (p w here) (out w here) c in
      let n' : (a : List ℕ) → has a (needles f') ≡ (w == a || has a (needles f)) =
        λ a. ap (λ l. has a (needles_in l)) ch ∙ n a in
      let rest =
        each-inserts ws f' d.1 (λ a h. p a (ground arith))
          (λ a h. elim (Bool-cases (w == a)) [
            | inl same ↦ absurd (ground (arith, ap (λ k. has k ws) (equal w a same), d.0))
            | inr differs ↦ ground (arith, n' a, out a)
          ])
          (subst IsClean (sym ch) c') in
      let (s0, s1) = each-step t.insert_rule w ws f f' e in
      record {
        clean = subst (λ g. IsClean (chain g)) (sym s0) rest.clean;
        passed = λ a. ground (arith, ap (λ g. has a (needles g)) s0, rest.passed a, n' a);
        kept = ap (λ g. keep is_other (chain g)) s0 ∙ rest.kept ∙ ap (keep is_other) ch ∙ o;
        count = omega (arith, s1, rest.count);
      }

  each-deletes :
      (ds : List (List ℕ)) (f : F)
      → AllPlain ds
      → IsClean (chain f)
      → IsEdited f
          (λ a. has a (needles f) && not (has a ds))
          (length ds)
          (each t t.delete_rule ds f)
  unfolding each
  each-deletes [] f p c = record {
    clean = c;
    passed = λ a. ground arith;
    kept = refl;
    count = refl;
  }
  each-deletes (w ∷ ds) f p c =
      let (f', e, ch) = is.deletes w f in
      let (c', n, o) = take_line w (chain f) (p w (ground (arith, test_self w))) c in
      let n' : (a : List ℕ) → has a (needles f') ≡ (has a (needles f) && not (w == a)) =
        λ a. ap (λ l. has a (needles_in l)) ch ∙ n a in
      let rest = each-deletes ds f' (λ a h. p a (ground arith)) (subst IsClean (sym ch) c') in
      let (s0, s1) = each-step t.delete_rule w ds f f' e in
      record {
        clean = subst (λ g. IsClean (chain g)) (sym s0) rest.clean;
        passed = λ a. ground (arith, ap (λ g. has a (needles g)) s0, rest.passed a, n' a);
        kept = ap (λ g. keep is_other (chain g)) s0 ∙ rest.kept ∙ ap (keep is_other) ch ∙ o;
        count = omega (arith, s1, rest.count);
      }

  installed_needles-same : (f : F) → IsClean (chain f) → installed_needles t f ≡ needles f
  unfolding installed_needles
  installed_needles-same f c =
      rw (installed_needles, is.lists f) (set_of-same (needles f) c.distinct)

  -- What is left of a chain after the reconciliation, and the numbers it reports.
  pub record IsReconciled (wanted : List (List ℕ)) (f : F) (r : F × Summary) : Type 0 where
    pub refined :
        view (chain r.0) ≡ record (view (chain f)) { passes = λ needle. has needle wanted }
    pub clean : IsClean (chain r.0)
    pub summary : r.1 ≡ record {
      root = true;
      added = length (minus wanted (needles f));
      removed = length (minus (needles f) wanted);
      unchanged = length (both wanted (needles f));
    }

  reconcile_from-IsReconciled :
      (wanted : List (List ℕ)) (f : F)
      → Distinct wanted
      → AllPlain wanted
      → IsClean (chain f)
      → IsReconciled wanted f (reconcile_from t wanted (needles f) f)
  unfolding reconcile_from
  reconcile_from-IsReconciled wanted f d p c =
      let missing = minus wanted (needles f) in
      let stale = minus (needles f) wanted in
      let in_missing : (a : List ℕ)
          → has a (sorted missing) ≡ (has a wanted && not (has a (needles f))) =
        λ a. has-sorted a missing ∙ has-minus a wanted (needles f) in
      let in_stale : (a : List ℕ)
          → has a (sorted stale) ≡ (has a (needles f) && not (has a wanted)) =
        λ a. has-sorted a stale ∙ has-minus a (needles f) wanted in
      let first =
        each-inserts (sorted missing) f
          (sorted-Distinct missing (keep-Distinct (λ x. not (has x (needles f))) wanted d))
          (λ a h. p a (ground (arith, in_missing a))) (λ a h. ground (arith, in_missing a)) c in
      let f1 = (each t t.insert_rule (sorted missing) f).0 in
      let second =
        each-deletes (sorted stale) f1
          (λ a h. IsManaged-AllPlain (chain f) c.managed a (ground (arith, in_stale a)))
          first.clean in
      let f2 = (each t t.delete_rule (sorted stale) f1).0 in
      let passes : (λ needle. has needle (needles f2)) ≡ (λ needle. has needle wanted) =
        fun_ext (λ a. ground (arith, second.passed a, first.passed a, in_missing a, in_stale a)) in
      record {
        refined = λ i. record { passes = passes i; others = (second.kept ∙ first.kept) i };
        clean = second.clean;
        summary = λ i. record {
          root = true;
          added = (first.count ∙ length-sorted missing) i;
          removed = (second.count ∙ length-sorted stale) i;
          unchanged = length (both wanted (needles f));
        };
      }

  -- Where what is wanted is what stands in the chain, nothing is done.
  reconcile_from-again :
      (wanted : List (List ℕ)) (f : F)
      → ((a : List ℕ) → has a (needles f) ≡ has a wanted)
      → reconcile_from t wanted (needles f) f
        ≡ (f, record { root = true; added = 0; removed = 0; unchanged = length wanted })
  unfolding reconcile_from each sorted
  reconcile_from-again wanted f same =
      rw
        (
          minus-none wanted (needles f) (λ a h. same a ∙ h),
          minus-none (needles f) wanted (λ a h. sym (same a) ∙ h),
          both-all wanted (needles f) (λ a h. same a ∙ h),
        )
        refl

  abbrev settled : List (List ℕ) → Summary
  settled wanted = record { root = true; added = 0; removed = 0; unchanged = length wanted }

  reconcile-IsReconciled :
      (wanted : List (List ℕ)) (f : F)
      → Distinct wanted
      → AllPlain wanted
      → IsClean (chain f)
      → IsReconciled wanted f (reconcile t wanted f)
  unfolding reconcile
  reconcile-IsReconciled wanted f d p c =
      subst (λ l. IsReconciled wanted f (reconcile_from t wanted l f))
        (sym (installed_needles-same f c)) (reconcile_from-IsReconciled wanted f d p c)

  reconcile-again :
      (wanted : List (List ℕ)) (f : F)
      → IsClean (chain f)
      → ((a : List ℕ) → has a (needles f) ≡ has a wanted)
      → reconcile t wanted f ≡ (f, settled wanted)
  unfolding reconcile
  reconcile-again wanted f c same =
      ap (λ l. reconcile_from t wanted l f) (installed_needles-same f c)
      ∙ reconcile_from-again wanted f same

  sync-reconcile :
      (now : ℕ) (load : Option (List Rule)) (cache : Cache) (f : F)
      → let cache' = refresh false now load cache in
        let r = reconcile t (sni_needles cache'.rules) f in
        sync_iptables t true now load cache f ≡ (cache', r.0, r.1)
  unfolding sync_iptables
  sync-reconcile now load cache f =
      let cache' = refresh false now load cache in
      ap (λ w. (cache', (reconcile t w f).0, (reconcile t w f).1))
        (set_of-same (sni_needles cache'.rules) (sni_needles-set cache'.rules).0)

  -- Synchronizing where iptables can run, each call that lists, inserts or deletes works, and the line
  -- that is printed for a rule is the one that stands for it, on a chain where no needle stands twice
  -- and each has a line of this program, and with no quote in a needle that the rules ask for: it leaves
  -- exactly those needles passing, all other lines as they are and in their order, and such a chain again. It
  -- reports how many needles were missing, stale and present. A second synchronization at that time
  -- changes nothing and reports that every needle is present.
  pub sync_iptables-refines :
      (now : ℕ) (load : Option (List Rule)) (cache : Cache) (f : F)
      → IsClean (chain f)
      → ((a : List ℕ)
          → has a (needles_of (refresh false now load cache).rules) ≡ true
          → has quote a ≡ false)
      → let cache' = refresh false now load cache in
        let wanted = sni_needles cache'.rules in
        let after = sync_iptables t true now load cache f in
        IsReconciled wanted f (after.1, after.2)
        × ((a : List ℕ) → has a wanted ≡ has a (needles_of cache'.rules))
        × (sync_iptables t true now load after.0 after.1 ≡ (cache', after.1, settled wanted))
  sync_iptables-refines now load cache f clean no_quote =
      let cache' = refresh false now load cache in
      let wanted = sni_needles cache'.rules in
      let (distinct, same) = sni_needles-set cache'.rules in
      let r = reconcile t wanted f in
      let plain : AllPlain wanted = λ a h. (
        no_quote a (sym (same a) ∙ h),
        λ e. ground (arith, needles_of-not_empty cache'.rules, same [], ap (λ k. has k wanted) e),
      ) in
      let done = reconcile-IsReconciled wanted f distinct plain clean in
      let again = reconcile-again wanted r.0 done.clean (λ a. ap (λ v. v.passes a) done.refined) in
      rw (sync-reconcile now load cache f) (
        done,
        same,
        sync-reconcile now load cache' r.0
            ∙ ap
                (λ k. (
                  k,
                  (reconcile t (sni_needles k.rules) r.0).0,
                  (reconcile t (sni_needles k.rules) r.0).1,
                ))
                (refresh-again now load cache)
            ∙ ap (λ z. (cache', z.0, z.1)) again,
      )
