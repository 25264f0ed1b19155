-- ===== src/Auth/Tests.antt =====
-- The theorems on signed requests at a small instance: numbers in unary, and a digest that counts.
use ids_bachelor_thesis.Prelude.{
  pos, ℕ, zero, suc, ◌≡◌, ◌≢◌, refl, true, String, none, some, [], ◌∷◌, map, length, arith,
  text_test,
}
use ids_bachelor_thesis.Dict.{get, insert, evict, pop_all, keys_where}
use ids_bachelor_thesis.Text.{codes, to_upper, is_ascii}
use ids_bachelor_thesis.Auth.Canonical.{canonical}
use ids_bachelor_thesis.Auth.Nonces.{NonceTracker, new_tracker, check_and_record}
use ids_bachelor_thesis.Auth.Verify.{
  Primitives, Request, accepted, raised, header, signature_header, timestamp_header, nonce_header,
  verify_request, sign_request, distance, signature,
}
use ids_bachelor_thesis.Auth.Replay.{Call, run, run_all, replay_rejected}
use ids_bachelor_thesis.Auth.Accept.{
  IsFaithful, signed_is_accepted, accepted_is_signed, tampered_is_rejected,
}

unary : ℕ → String
unary zero = "0"
unary (suc n) = String.◌∷◌ "1" (unary n)

tally : String → ℕ
tally String.[] = 0
tally (String.◌∷◌ c String.[]) = 0
tally (String.◌∷◌ c (String.◌∷◌ d s)) = suc (tally (String.◌∷◌ d s))

abbrev toy : Primitives
toy = record {
  sha256_hex = λ body. unary (length body);
  hmac_hex = λ secret message. unary (length message);
  int_of = λ s. some (pos (tally s));
  str_of = unary;
}

tally-unary : (n : ℕ) → tally (unary n) ≡ n
unfolding tally unary
tally-unary zero = refl
tally-unary (suc zero) = refl
tally-unary (suc (suc n)) = omega (arith, tally-unary (suc n))

unary_ascii : (n : ℕ) → is_ascii (codes (unary n)) ≡ true
unfolding unary is_ascii
unary_ascii zero = refl
unary_ascii (suc n) = unary_ascii n

unary_not_empty : (n : ℕ) → unary n ≢ ""
unfolding unary
unary_not_empty zero = ground (arith, text_test.test_iff "0" "")
unary_not_empty (suc n) = λ h. cc h

toy-IsFaithful : IsFaithful toy
toy-IsFaithful = record {
  reads = λ n. ap_some n;
  digits = unary_not_empty;
  digest = λ k m. unary_not_empty (length m);
  ascii = λ k m. unary_ascii (length m);
}
  where
    ap_some : (n : ℕ) → some (pos (tally (unary n))) ≡ some (pos n)
    ap_some n = cc (tally-unary n)

abbrev update : Request
update = record { method = "POST"; path = "/ids/update"; body = 1 ∷ 2 ∷ [] }

abbrev empty_tracker : NonceTracker
empty_tracker = new_tracker 300

abbrev call : Call
call = record {
  request = update;
  headers = sign_request toy "secret" update (some 5) (some "n1") 0 "";
  clock = 6_000_000;
  later = 6_000_500;
}

abbrev again : Call
again = record call { clock = 9_000_000; later = 9_000_100 }

abbrev other : Call
other = record {
  request = update;
  headers = sign_request toy "secret" update (some 7) (some "n2") 0 "";
  clock = 7_500_000;
  later = 7_600_000;
}

runs :
    ((run toy 60 "secret" call empty_tracker).1 ≡ accepted)
    × ((run toy 60 "secret" again empty_tracker).1 ≡ accepted)
    × ((run toy 60 "secret" other (run toy 60 "secret" call empty_tracker).0).1 ≡ accepted)
unfolding run verify_request sign_request get unary tally canonical to_upper is_ascii distance
    check_and_record evict pop_all keys_where insert
runs = (refl, refl, refl)

replay_rejected_example :
    (run toy 60 "secret" again
      (run_all toy 60 "secret" (other ∷ []) (run toy 60 "secret" call empty_tracker).0)).1
    ≢ accepted
unfolding sign_request get
replay_rejected_example =
    replay_rejected toy 60 "secret" call (other ∷ []) again empty_tracker 100 runs.0 (omega arith)
      (omega arith) (omega arith) (omega arith) refl refl (omega arith)

signed_is_accepted_example :
    (verify_request toy 60 "secret" update
      (sign_request toy "secret" update (some 5) none 0 "n1")
      none
      6_000_000
      6_000_500
      empty_tracker).1
    ≡ accepted
unfolding get distance
signed_is_accepted_example =
    signed_is_accepted toy 60 "secret" update (some 5) none 0 "n1" none 6_000_000 6_000_500
      empty_tracker toy-IsFaithful n1_not_empty refl (omega arith)
  where
    n1_not_empty : ◌≢◌ {A = String} "n1" ""
    n1_not_empty = ground (arith, text_test.test_iff "n1" "")

accepted_is_signed_example :
    header call.headers signature_header
    ≡ signature toy "secret" update
        (header call.headers timestamp_header)
        (header call.headers nonce_header)
unfolding run
accepted_is_signed_example =
    accepted_is_signed toy 60 "secret" update call.headers none 6_000_000 6_000_500 empty_tracker
      runs.0

abbrev lower_case : Request
lower_case = record update { method = "post" }

tampered_is_rejected_example :
    (map to_upper (codes update.method) ≡ map to_upper (codes lower_case.method))
    × (codes update.path ≡ codes lower_case.path)
    × (codes (unary 2) ≡ codes (unary 2))
unfolding verify_request sign_request get unary tally canonical to_upper is_ascii distance
    check_and_record evict pop_all keys_where insert
tampered_is_rejected_example =
    tampered_is_rejected toy 60 "secret" update lower_case 5 "n1" none 6_000_000 6_000_500
      empty_tracker (omega arith) (omega arith) (omega arith) (omega arith) (omega arith)
      (omega arith) (λ _. refl) refl

-- A signature with a character outside ASCII makes `compare_digest` raise.
non_ascii_raises :
    (verify_request toy 60 "secret" update
      ((timestamp_header, "111110") ∷ (nonce_header, "n") ∷ (signature_header, "é") ∷ [])
      none
      6_000_000
      6_000_500
      empty_tracker).1
    ≡ raised
unfolding verify_request get unary tally canonical to_upper is_ascii distance
non_ascii_raises = refl
