-- ===== src/Dns/Tests.antt =====
-- Names and queries, run.
use ids_bachelor_thesis.Dict.{get, insert}
use ids_bachelor_thesis.Deque
use ids_bachelor_thesis.Deque.{trim}
use ids_bachelor_thesis.Prelude.{◌≡◌, refl, [], ◌∷◌}
use ids_bachelor_thesis.Text.{codes, to_lower}
use ids_bachelor_thesis.Dns.Names.{base_domain}
use ids_bachelor_thesis.Dns.Defs.{detect_dns, high_entropy_qname, txt_query}

base_lem : base_domain (codes "A.b.Example.com.") ≡ codes "example.com"
unfolding base_domain to_lower
base_lem = refl

base_suffix_lem : base_domain (codes "www.example.co.uk") ≡ codes "example.co.uk"
unfolding base_domain to_lower
base_suffix_lem = refl

-- A name of high entropy that is asked for with the type TXT.
txt_lem :
    (detect_dns (λ s. 4_000_000) 5 "10.0.0.9" (codes "x.example.com") (codes "txt") []).1
    ≡ high_entropy_qname ∷ txt_query ∷ []
unfolding detect_dns trim Deque.append get insert
txt_lem = refl
