-- ===== src/Auth/Accept.antt =====
-- What `verify_request` accepts: signed requests in the window, and nothing with another signature.
use ids_bachelor_thesis.Prelude.{
  pos, ℕ, ◌*◌, ◌≤◌, ◌≡◌, ◌≢◌, true, String, inl, inr, Option-cases, Option, none, some, List, map,
  arith, text_test,
}
use ids_bachelor_thesis.Dict.{Dict, get}
use ids_bachelor_thesis.Dict.Laws.{get-evict}
use ids_bachelor_thesis.Text.{codes, to_upper, is_ascii, NoNewline}
use ids_bachelor_thesis.Auth.Canonical.{canonical, canonical_injective}
use ids_bachelor_thesis.Auth.Nonces.{NonceTracker, second, check_and_record, is_stale}
use ids_bachelor_thesis.Auth.Verify.{
  Primitives, Request, accepted, header, timestamp_header, nonce_header, signature_header, distance,
  verify_request, sign_request, signature, nonempty_or, number_or,
}

-- What the code relies on: `int` reads what `str` prints, and a digest is a nonempty hex text.
pub record IsFaithful (p : Primitives) : Type 0 where
  pub reads : (n : ℕ) → p.int_of (p.str_of n) ≡ some (pos n)
  pub digits : (n : ℕ) → p.str_of n ≢ ""
  pub digest : (k : String) (m : List ℕ) → p.hmac_hex k m ≢ ""
  pub ascii : (k : String) (m : List ℕ) → is_ascii (codes (p.hmac_hex k m)) ≡ true

-- A nonce with no entry is fresh.
fresh_is_accepted :
    (now : ℕ) (nonce : String) (t : NonceTracker)
    → get t.seen nonce ≡ none
    → (check_and_record now nonce t).1 ≡ true
unfolding check_and_record
fresh_is_accepted now nonce t h = ground (arith, get-evict (is_stale t.retention now) t.seen nonce)

module _ (p : Primitives) (max_skew : ℕ) (secret : String) (r : Request) where
  -- A request that carries the headers of `sign_request` is accepted, if its timestamp is within
  -- the skew of the server's clock and its nonce is not empty and not on record.
  pub signed_is_accepted :
      (timestamp : Option ℕ) (nonce : Option String) (clock : ℕ) (token : String) (now : Option ℕ)
      (server_clock later : ℕ) (t : NonceTracker)
      → IsFaithful p
      → nonempty_or nonce token ≢ ""
      → get t.seen (nonempty_or nonce token) ≡ none
      → distance (number_or now server_clock) (pos (number_or timestamp clock)) ≤ max_skew * second
      → (verify_request p max_skew secret r
          (sign_request p secret r timestamp nonce clock token)
          now
          server_clock
          later
          t).1
        ≡ accepted
  unfolding verify_request sign_request get
  signed_is_accepted timestamp nonce clock token now server_clock later t ok ne fresh near =
      let ts = p.str_of (number_or timestamp clock) in
      let nc = nonempty_or nonce token in
      let sig = signature p secret r ts nc in
      rw (ok.reads (number_or timestamp clock)) (
        ground (
          arith,
          ok.digits (number_or timestamp clock),
          ok.digest secret (canonical r.method r.path ts nc (p.sha256_hex r.body)),
          ok.ascii secret (canonical r.method r.path ts nc (p.sha256_hex r.body)),
          fresh_is_accepted later nc t fresh,
          text_test.test_iff ts "",
          text_test.test_iff nc "",
          text_test.test_iff sig "",
          text_test.test_iff sig sig,
        ))

  -- An accepted request carries the signature of its own method, path, timestamp, nonce and body.
  pub accepted_is_signed :
      (headers : Dict String String) (now : Option ℕ) (clock later : ℕ) (t : NonceTracker)
      → (verify_request p max_skew secret r headers now clock later t).1 ≡ accepted
      → header headers signature_header
        ≡ signature p secret r (header headers timestamp_header) (header headers nonce_header)
  unfolding verify_request
  accepted_is_signed headers now clock later t h =
      let expected =
        signature p secret r (header headers timestamp_header) (header headers nonce_header) in
      elim (Option-cases (p.int_of (header headers timestamp_header))) [
        | inl e ↦ ground arith
        | inr (n, e) ↦ ground (arith, text_test.test_iff expected (header headers signature_header))
      ]

module _ (p : Primitives) (max_skew : ℕ) (secret : String) (signed sent : Request) where
  abbrev payload : Request → String → String → List ℕ
  payload r ts nc = canonical r.method r.path ts nc (p.sha256_hex r.body)

  -- Headers made for one request are accepted with another one only if both have the same method
  -- up to case, the same path and the same digest of the body; no field holds a newline, and the
  -- two payloads do not collide under the keyed hash.
  pub tampered_is_rejected :
      (timestamp : ℕ) (nonce : String) (now : Option ℕ) (clock later : ℕ) (t : NonceTracker)
      → NoNewline (codes signed.method)
      → NoNewline (codes signed.path)
      → NoNewline (codes sent.method)
      → NoNewline (codes sent.path)
      → NoNewline (codes (p.str_of timestamp))
      → NoNewline (codes (nonempty_or (some nonce) ""))
      → (p.hmac_hex secret (payload signed (p.str_of timestamp) (nonempty_or (some nonce) ""))
            ≡ p.hmac_hex secret (payload sent (p.str_of timestamp) (nonempty_or (some nonce) ""))
          → payload signed (p.str_of timestamp) (nonempty_or (some nonce) "")
            ≡ payload sent (p.str_of timestamp) (nonempty_or (some nonce) ""))
      → (verify_request p max_skew secret sent
          (sign_request p secret signed (some timestamp) (some nonce) 0 "")
          now
          clock
          later
          t).1
        ≡ accepted
      → (map to_upper (codes signed.method) ≡ map to_upper (codes sent.method))
        × (codes signed.path ≡ codes sent.path)
        × (codes (p.sha256_hex signed.body) ≡ codes (p.sha256_hex sent.body))
  unfolding sign_request get
  tampered_is_rejected timestamp nonce now clock later t m1 p1 m2 p2 ts nc no_collision h =
      let same =
        accepted_is_signed p max_skew secret sent
          (sign_request p secret signed (some timestamp) (some nonce) 0 "") now clock later t h in
      let (em, ep, _, _, eh) =
        canonical_injective signed.method signed.path (p.str_of timestamp)
          (nonempty_or (some nonce) "") (p.sha256_hex signed.body) sent.method sent.path
          (p.str_of timestamp) (nonempty_or (some nonce) "") (p.sha256_hex sent.body) m1 p1 ts nc m2
          p2 ts nc (no_collision same) in
      (em, ep, eh)
