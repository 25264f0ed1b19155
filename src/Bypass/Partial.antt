-- ===== src/Bypass/Partial.antt =====
-- The loops of the reconciliation where some calls of iptables raise: an exception is caught, leaves
-- the chain as it is, and the loop goes on.
use ids_bachelor_thesis.Prelude.{
  ℕ, ◌+◌, ◌≤◌, ◌≡◌, refl, ap, subst, sym, ◌∙◌, ◌==◌, number_test, list_test, Bool, true, false, not,
  ◌&&◌, ◌||◌, Option, none, some, List, [], ◌∷◌, arith, keep, has, equal, test_self, Distinct,
  length, inl, inr, Bool-cases, Option-cases,
}
use ids_bachelor_thesis.Bypass.Lines.{Line, needles_in}
use ids_bachelor_thesis.Bypass.Sync.{Iptables, or_else, each}
use ids_bachelor_thesis.Bypass.Chain.{is_other, return_line}
use ids_bachelor_thesis.Bypass.Edits.{IsClean, AllPlain, add_line, take_line}
use ids_bachelor_thesis.Prelude.{remove}

-- What iptables does where it does not raise.
pub record IsPartial {F : Type 0} (t : Iptables F) (chain : F → List Line) : Type 0 where
  pub lists : (f : F) → t.list_rules f ≡ some (chain f)
  pub inserts :
      (needle : List ℕ) (f f' : F)
      → t.insert_rule needle f ≡ some f'
      → chain f' ≡ return_line needle ∷ chain f
  pub deletes :
      (needle : List ℕ) (f f' : F)
      → t.delete_rule needle f ≡ some f'
      → chain f' ≡ remove (return_line needle) (chain f)

module _ {F : Type 0} (t : Iptables F) (chain : F → List Line) (is : IsPartial t chain) where
  abbrev pub passes : List ℕ → F → Bool
  passes a f = has a (needles_in (chain f))

  -- After calls of which at most `n` do not raise: the needles of `lower` pass, no others than those of
  -- `upper` do, and if `n` do not raise, just those of `target`.
  pub record IsBetween (lower upper target : List ℕ → Bool) (n : ℕ) (f : F) (r : F × ℕ)
      : Type 0 where
    pub clean : IsClean (chain r.0)
    pub kept : keep is_other (chain r.0) ≡ keep is_other (chain f)
    pub above : (a : List ℕ) → lower a ≡ true → passes a r.0 ≡ true
    pub below : (a : List ℕ) → passes a r.0 ≡ true → upper a ≡ true
    pub bound : r.1 ≤ n
    pub exact : r.1 ≡ n → (a : List ℕ) → passes a r.0 ≡ target a

  each-some :
      (edit : List ℕ → F → Option F) (w : List ℕ) (ws : List (List ℕ)) (f f' : F)
      → edit w f ≡ some f'
      → each t edit (w ∷ ws) f ≡ ((each t edit ws f').0, 1 + (each t edit ws f').1)
  unfolding each
  each-some edit w ws f f' e = rw (or_else, e) refl

  each-none :
      (edit : List ℕ → F → Option F) (w : List ℕ) (ws : List (List ℕ)) (f : F)
      → edit w f ≡ none
      → each t edit (w ∷ ws) f ≡ ((each t edit ws f).0, 0 + (each t edit ws f).1)
  unfolding each
  each-none edit w ws f e = rw (or_else, e) refl

  pub each-inserts :
      (ws : List (List ℕ)) (f : F)
      → Distinct ws
      → AllPlain ws
      → ((a : List ℕ) → has a ws ≡ true → passes a f ≡ false)
      → IsClean (chain f)
      → IsBetween
          (λ a. passes a f)
          (λ a. has a ws || passes a f)
          (λ a. has a ws || passes a f)
          (length ws)
          f
          (each t t.insert_rule ws f)
  unfolding each
  each-inserts [] f d p out c = record {
    clean = c;
    kept = refl;
    above = λ a h. h;
    below = λ a h. h;
    bound = omega arith;
    exact = λ e a. refl;
  }
  each-inserts (w ∷ ws) f d p out c = elim (Option-cases (t.insert_rule w f)) [
    | inl raised ↦
        let rest =
          each-inserts ws f d.1 (λ a h. p a (ground arith)) (λ a h. out a (ground arith)) c in
        rw (each-none t.insert_rule w ws f raised) (record {
          clean = rest.clean;
          kept = rest.kept;
          above = rest.above;
          below = λ a h. ground (arith, rest.below a h);
          bound = omega (arith, rest.bound);
          exact = λ e a. absurd (omega (arith, rest.bound));
        })
    | inr (f', e) ↦
        let here : has w (w ∷ ws) ≡ true = ground (arith, test_self w) in
        let ch = is.inserts w f f' e in
        let (c', n, o) = add_line w (chain f) (p w here) (out w here) c in
        let n' : (a : List ℕ) → passes a f' ≡ (w == a || passes a f) =
          λ a. ap (λ l. has a (needles_in l)) ch ∙ n a in
        let rest =
          each-inserts ws f' d.1 (λ a h. p a (ground arith))
            (λ a h. elim (Bool-cases (w == a)) [
              | inl same ↦ absurd (ground (arith, ap (λ k. has k ws) (equal w a same), d.0))
              | inr differs ↦ ground (arith, n' a, out a)
            ])
            (subst IsClean (sym ch) c') in
        rw (each-some t.insert_rule w ws f f' e) (record {
          clean = rest.clean;
          kept = rest.kept ∙ ap (keep is_other) ch ∙ o;
          above = λ a h. rest.above a (ground (arith, n' a));
          below = λ a h. ground (arith, rest.below a h, n' a);
          bound = omega (arith, rest.bound);
          exact = λ k a. rest.exact (omega arith) a ∙ ground (arith, n' a);
        })
  ]

  pub each-deletes :
      (ds : List (List ℕ)) (f : F)
      → AllPlain ds
      → IsClean (chain f)
      → IsBetween
          (λ a. passes a f && not (has a ds))
          (λ a. passes a f)
          (λ a. passes a f && not (has a ds))
          (length ds)
          f
          (each t t.delete_rule ds f)
  unfolding each
  each-deletes [] f p c = record {
    clean = c;
    kept = refl;
    above = λ a h. ground arith;
    below = λ a h. h;
    bound = omega arith;
    exact = λ e a. ground arith;
  }
  each-deletes (w ∷ ds) f p c = elim (Option-cases (t.delete_rule w f)) [
    | inl raised ↦
        let rest = each-deletes ds f (λ a h. p a (ground arith)) c in
        rw (each-none t.delete_rule w ds f raised) (record {
          clean = rest.clean;
          kept = rest.kept;
          above = λ a h. rest.above a (ground arith);
          below = rest.below;
          bound = omega (arith, rest.bound);
          exact = λ e a. absurd (omega (arith, rest.bound));
        })
    | inr (f', e) ↦
        let ch = is.deletes w f f' e in
        let (c', n, o) = take_line w (chain f) (p w (ground (arith, test_self w))) c in
        let n' : (a : List ℕ) → passes a f' ≡ (passes a f && not (w == a)) =
          λ a. ap (λ l. has a (needles_in l)) ch ∙ n a in
        let rest = each-deletes ds f' (λ a h. p a (ground arith)) (subst IsClean (sym ch) c') in
        rw (each-some t.delete_rule w ds f f' e) (record {
          clean = rest.clean;
          kept = rest.kept ∙ ap (keep is_other) ch ∙ o;
          above = λ a h. rest.above a (ground (arith, n' a));
          below = λ a h. ground (arith, rest.below a h, n' a);
          bound = omega (arith, rest.bound);
          exact = λ k a. rest.exact (omega arith) a ∙ ground (arith, n' a);
        })
  ]
