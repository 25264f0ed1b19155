-- ===== src/Mitre/Tests.antt =====
-- Reasons that name the same technique, and one that names none.
use ids_bachelor_thesis.Prelude.{
  text_test, number_test, ◌≡◌, ◌≤◌, refl, length, String, List, [], ◌∷◌, map,
}
use ids_bachelor_thesis.Dict.{get}
use ids_bachelor_thesis.Text.{starts_with}
use ids_bachelor_thesis.Mitre.Defs.{classify, technique_of, has_technique, key_leb, rank_in}
use ids_bachelor_thesis.Mitre.Order.{IsOrdered, IsDistinct, classify-IsOrdered}

abbrev reasons : List String
reasons = "flood" ∷ "payload_xxe" ∷ "HTTP_sqli" ∷ "http_SQLI" ∷ "ml_skipped_no_features" ∷ []

found : map (λ e. e.technique) (classify reasons) ≡ "T1190" ∷ "T1498" ∷ []
unfolding classify technique_of get starts_with has_technique key_leb rank_in
found = refl

classify-IsOrdered_example :
    IsOrdered (classify reasons) × IsDistinct (classify reasons) × (length (classify reasons) ≤ 12)
classify-IsOrdered_example = classify-IsOrdered reasons
