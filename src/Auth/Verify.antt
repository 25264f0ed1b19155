-- ===== src/Auth/Verify.antt =====
-- `sign_request` and `verify_request` of intelligence/sensor_auth.py.
use ids_bachelor_thesis.Prelude.{
  ℤ, pos, negsuc, ℕ, suc, ◌+◌, ◌-◌, ◌*◌, Bool, true, false, not, ◌||◌, ◌&&◌, String, Option, none,
  some, List, [], ◌∷◌, ltb, text_test, ◌==◌, if◌then◌else◌,
}
use ids_bachelor_thesis.Dict.{Dict, get}
use ids_bachelor_thesis.Text.{codes, is_ascii}
use ids_bachelor_thesis.Auth.Canonical.{canonical}
use ids_bachelor_thesis.Auth.Nonces.{NonceTracker, second, check_and_record}

-- What the module calls of `hashlib`, `hmac` and of the conversions between numbers and text;
-- `int_of` is none where `int(ts)` raises `ValueError`.
pub record Primitives : Type 0 where
  pub sha256_hex : List ℕ → String
  pub hmac_hex : String → List ℕ → String
  pub int_of : String → Option ℤ
  pub str_of : ℕ → String

abbrev pub timestamp_header : String
timestamp_header = "X-IDS-Timestamp"

abbrev pub nonce_header : String
nonce_header = "X-IDS-Nonce"

abbrev pub signature_header : String
signature_header = "X-IDS-Signature"

-- the parts of a request that the signature covers
pub record Request : Type 0 where
  pub method : String
  pub path : String
  pub body : List ℕ

-- `headers.get(name, "")`, and `nonce or fresh`
abbrev pub text_or : Option String → String → String
text_or none d = d
text_or (some s) d = s

abbrev pub nonempty_or : Option String → String → String
nonempty_or none d = d
nonempty_or (some s) d = if s == "" then d else s

abbrev pub number_or : Option ℕ → ℕ → ℕ
number_or none d = d
number_or (some n) d = n

abbrev pub header : Dict String String → String → String
header headers name = text_or (get headers name) ""

pub data Reason : Type 0 where
  missing_signing_headers invalid_timestamp timestamp_out_of_window : Reason
  bad_signature replayed_nonce : Reason

-- `raised` is the `TypeError` of `hmac.compare_digest` on a text that is not ASCII.
pub data Outcome : Type 0 where
  accepted : Outcome
  rejected : Reason → Outcome
  raised : Outcome

-- abs(now - ts) in microseconds, for a timestamp in whole seconds
unfoldable pub distance : ℕ → ℤ → ℕ
distance now (pos n) = (now - n * second) + (n * second - now)
distance now (negsuc n) = now + suc n * second

abbrev pub admit : NonceTracker × Bool → NonceTracker × Outcome
admit (t, true) = (t, accepted)
admit (t, false) = (t, rejected replayed_nonce)

-- `compare_digest` and what follows it
abbrev pub check_signature : String → String → ℕ → String → NonceTracker → NonceTracker × Outcome
check_signature expected sig later nc t =
    if not (is_ascii (codes expected) && is_ascii (codes sig))
    then (t, raised)
    else if not (expected == sig)
    then (t, rejected bad_signature)
    else admit (check_and_record later nc t)

module _ (p : Primitives) where
  abbrev pub signature : String → Request → String → String → String
  signature secret r ts nc =
      p.hmac_hex secret (canonical r.method r.path ts nc (p.sha256_hex r.body))

  -- `clock` is what `int(time.time())` returns, and `token` what `secrets.token_hex(16)` does.
  unfoldable pub sign_request :
      String → Request → Option ℕ → Option String → ℕ → String → Dict String String
  sign_request secret r timestamp nonce clock token =
      let ts = p.str_of (number_or timestamp clock) in
      let nc = nonempty_or nonce token in
      (timestamp_header, ts)
      ∷ (nonce_header, nc)
      ∷ (signature_header, signature secret r ts nc)
      ∷ []

  -- `max_skew` is in seconds. `now` is the optional argument, `clock` what `time.time()` returns here
  -- and `later` what it returns in `check_and_record`.
  unfoldable pub verify_request :
      (max_skew : ℕ) (secret : String) (r : Request) (headers : Dict String String) (now : Option ℕ)
      (clock later : ℕ)
      → NonceTracker
      → NonceTracker × Outcome
  verify_request max_skew secret r headers now clock later t =
      let ts = header headers timestamp_header in
      let nc = header headers nonce_header in
      let sig = header headers signature_header in
      if ts == "" || nc == "" || sig == ""
      then (t, rejected missing_signing_headers)
      else elim (p.int_of ts) [
        | none ↦ (t, rejected invalid_timestamp)
        | some n ↦
            if ltb (max_skew * second) (distance (number_or now clock) n)
            then (t, rejected timestamp_out_of_window)
            else check_signature (signature secret r ts nc) sig later nc t
      ]
