-- ===== src/Bypass/Tests.antt =====
-- The synchronization at a chain with one stale needle and one line of another program.
use ids_bachelor_thesis.Prelude.{
  ℕ, ◌≡◌, refl, true, false, none, some, List, [], ◌∷◌, has, remove, length, list_test, number_test,
  text_test, arith, Bool-cases, inl, inr, equal, subst, ap, ◌==◌,
}
use ids_bachelor_thesis.Text.{codes}
use ids_bachelor_thesis.Bypass.Rules.{Rule, Cache, refresh, sni_needles, needles_of}
use ids_bachelor_thesis.Bypass.Lines.{Line, quote, needles_in}
use ids_bachelor_thesis.Bypass.Sync.{Iptables, sync_iptables, Summary}
use ids_bachelor_thesis.Bypass.Chain.{IsManaged, IsPlain, return_line}
use ids_bachelor_thesis.Bypass.Edits.{IsIptables, IsClean}
use ids_bachelor_thesis.Bypass.Refine.{IsReconciled, sync_iptables-refines}

-- The state is the chain itself.
abbrev iptables : Iptables (List Line)
iptables = record {
  list_rules = λ f. some f;
  insert_rule = λ needle f. some (return_line needle ∷ f);
  delete_rule = λ needle f. some (remove (return_line needle) f);
}

iptables-IsIptables : IsIptables iptables (λ f. f)
iptables-IsIptables = record {
  lists = λ f. refl;
  inserts = λ needle f. (return_line needle ∷ f, refl, refl);
  deletes = λ needle f. (remove (return_line needle) f, refl, refl);
}

abbrev foreign : Line
foreign = codes "-A PREROUTING -p tcp -m tcp --dport 443 -j REDIRECT --to-ports 8443"

abbrev chain : List Line
chain = return_line (codes "old.example") ∷ foreign ∷ []

abbrev rules : List Rule
rules =
    record { match_type = "sni"; pattern = codes " *.Example.com" }
    ∷ record { match_type = "ip"; pattern = codes "10.0.0.1" }
    ∷ []

abbrev cache : Cache
cache = record { rules = []; last_refresh = 0 }

old-IsPlain : IsPlain (codes "old.example")
old-IsPlain = (refl, λ h. cc h)

chain-IsClean : IsClean chain
unfolding needles_in return_line
chain-IsClean = record {
  managed = (IsManaged.ours (codes "old.example") old-IsPlain, (IsManaged.other foreign refl, tt));
  distinct = (refl, tt);
}

wanted_lem :
    needles_of (refresh false 60_000_000 (some rules) cache).rules ≡ codes "example.com" ∷ []
unfolding needles_of refresh
wanted_lem = refl

no_quote :
    (a : List ℕ)
    → has a (needles_of (refresh false 60_000_000 (some rules) cache).rules) ≡ true
    → has quote a ≡ false
no_quote a h = elim (Bool-cases (codes "example.com" == a)) [
  | inl same ↦ subst (λ k. has quote k ≡ false) (equal (codes "example.com") a same) refl
  | inr differs ↦ absurd (ground (arith, ap (has a) wanted_lem))
]

sync_lem :
    (sync_iptables iptables true 60_000_000 (some rules) cache chain).1
    ≡ return_line (codes "example.com") ∷ foreign ∷ []
unfolding sync_iptables return_line
sync_lem = refl

abbrev current : Cache
current = refresh false 60_000_000 (some rules) cache

abbrev synced : Cache × List Line × Summary
synced = sync_iptables iptables true 60_000_000 (some rules) cache chain

sync_iptables-refines_example :
    IsReconciled iptables
      (λ f. f)
      iptables-IsIptables
      (sni_needles current.rules)
      chain
      (synced.1, synced.2)
    × ((a : List ℕ) → has a (sni_needles current.rules) ≡ has a (needles_of current.rules))
    × (sync_iptables iptables true 60_000_000 (some rules) synced.0 synced.1 ≡ (
      current,
      synced.1,
      record {
        root = true;
        added = 0;
        removed = 0;
        unchanged = length (sni_needles current.rules);
      },
    ))
sync_iptables-refines_example =
    sync_iptables-refines iptables (λ f. f) iptables-IsIptables 60_000_000 (some rules) cache chain
      chain-IsClean no_quote

-- Every insertion raises.
abbrev no_inserts : Iptables (List Line)
no_inserts = record iptables { insert_rule = λ needle f. none }

-- The stale line is taken out, and the line that is missing stays away.
no_inserts_lem :
    (sync_iptables no_inserts true 60_000_000 (some rules) cache chain).1 ≡ foreign ∷ []
unfolding sync_iptables return_line
no_inserts_lem = refl
