-- ===== src/Auth/Canonical.antt =====
-- The payload that is signed, `_canonical` of intelligence/sensor_auth.py.
use ids_bachelor_thesis.Prelude.{ℕ, ◌≡◌, refl, String, List, [], ◌∷◌, ◌++◌, map, arith}
use ids_bachelor_thesis.Text.{codes, to_upper, newline, NoNewline, map-to_upper-NoNewline}

-- The five lines of the payload; `body_hash` is the hex digest of the body.
unfoldable pub canonical : String → String → String → String → String → List ℕ
canonical method path timestamp nonce body_hash =
    map to_upper (codes method)
    ++ (newline ∷ codes path
        ++ (newline ∷ codes timestamp ++ (newline ∷ codes nonce ++ (newline ∷ codes body_hash))))

first_line :
    (xs ys : List ℕ) (r s : List ℕ)
    → NoNewline xs
    → NoNewline ys
    → xs ++ newline ∷ r ≡ ys ++ newline ∷ s
    → (xs ≡ ys) × (r ≡ s)
first_line [] [] r s hx hy e = (refl, cc)
first_line [] (y ∷ ys) r s hx hy e = ground (arith, hy.0)
first_line (x ∷ xs) [] r s hx hy e = ground (arith, hx.0)
first_line (x ∷ xs) (y ∷ ys) r s hx hy e = ground (arith, first_line xs ys r s hx.1 hy.1)

module _ (m p t n h m' p' t' n' h' : String) where
  -- Where no line holds a newline, equal payloads have equal lines: the signature binds the method
  -- up to case, the path, the timestamp, the nonce and the digest of the body.
  pub canonical_injective :
      NoNewline (codes m)
      → NoNewline (codes p)
      → NoNewline (codes t)
      → NoNewline (codes n)
      → NoNewline (codes m')
      → NoNewline (codes p')
      → NoNewline (codes t')
      → NoNewline (codes n')
      → canonical m p t n h ≡ canonical m' p' t' n' h'
      → (map to_upper (codes m) ≡ map to_upper (codes m'))
        × (codes p ≡ codes p')
        × (codes t ≡ codes t')
        × (codes n ≡ codes n')
        × (codes h ≡ codes h')
  unfolding canonical
  canonical_injective hm hp ht hn hm' hp' ht' hn' e =
      let (em, e1) =
        first_line (map to_upper (codes m)) (map to_upper (codes m')) _ _
          (map-to_upper-NoNewline (codes m) hm) (map-to_upper-NoNewline (codes m') hm') e in
      let (ep, e2) = first_line (codes p) (codes p') _ _ hp hp' e1 in
      let (et, e3) = first_line (codes t) (codes t') _ _ ht ht' e2 in
      let (en, eh) = first_line (codes n) (codes n') _ _ hn hn' e3 in (em, ep, et, en, eh)
