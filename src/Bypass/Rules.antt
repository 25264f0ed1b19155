-- ===== src/Bypass/Rules.antt =====
-- The cached rules of ssl_inspect/bypass.py, what they match, and the needles they ask for. A text
-- is a list of code points.
use ids_bachelor_thesis.Prelude.{
  ℕ, ◌+◌, ◌==◌, number_test, text_test, list_test, Bool, true, false, not, ◌&&◌, ◌||◌, String,
  Option, none, some, List, [], ◌∷◌, map, ltb, if◌then◌else◌,
}
use ids_bachelor_thesis.Text.{strip, to_lower, set_of, sorted}

-- A pattern that is missing is empty.
pub record Rule : Type 0 where
  pub match_type : String
  pub pattern : List ℕ

pub record Cache : Type 0 where
  pub rules : List Rule
  pub last_refresh : ℕ

abbrev pub refresh_interval : ℕ
refresh_interval = 30_000_000

-- `load` is what the query returns, or nothing where it raises.
unfoldable pub refresh : (force : Bool) → (now : ℕ) → (load : Option (List Rule)) → Cache → Cache
refresh force now load c =
    if not force && ltb now (c.last_refresh + refresh_interval)
    then c
    else record { rules = elim load [ none ↦ [] | some rules ↦ rules ]; last_refresh = now }

-- `fnmatchcase`, and what the code uses of ipaddress: an address and a network, where the text is one.
pub record Matching (Address : Type 0) : Type 0 where
  pub fnmatchcase : List ℕ → (pattern : List ℕ) → Bool
  pub ip_address : List ℕ → Option Address
  pub ip_network : List ℕ → Option (Address → Bool)

module _ {Address : Type 0} (m : Matching Address) where
  unfoldable pub sni_matches : List ℕ → List Rule → Bool
  unfolding to_lower
  sni_matches sni [] = false
  sni_matches sni (rule ∷ rules) =
      if rule.match_type == "sni" && m.fnmatchcase (map to_lower sni) (map to_lower rule.pattern)
      then true
      else sni_matches sni rules

  -- An empty text stands for none, too. The rules are those after the refresh.
  unfoldable pub should_bypass_sni : List ℕ → List Rule → Bool
  unfolding sni_matches
  should_bypass_sni sni rules = if sni == [] then false else sni_matches sni rules

  abbrev in_network : Address → Option (Address → Bool) → Bool
  in_network address none = false
  in_network address (some network) = network address

  unfoldable pub ip_matches : List ℕ → Address → List Rule → Bool
  ip_matches ip address [] = false
  ip_matches ip address (rule ∷ rules) =
      if rule.match_type == "ip" && rule.pattern == ip
      then true
      else if rule.match_type == "cidr" && in_network address (m.ip_network rule.pattern)
      then true
      else ip_matches ip address rules

  unfoldable pub should_bypass_ip : List ℕ → List Rule → Bool
  unfolding ip_matches
  should_bypass_ip ip rules =
      if ip == []
      then false
      else elim (m.ip_address ip) [ none ↦ false | some address ↦ ip_matches ip address rules ]

-- `pattern.lstrip("*.")`
unfoldable pub lstrip_wildcard : List ℕ → List ℕ
lstrip_wildcard [] = []
lstrip_wildcard (c ∷ cs) = if c == b'*' || c == b'.' then lstrip_wildcard cs else c ∷ cs

unfoldable pub needle_of : List ℕ → List ℕ
unfolding to_lower strip lstrip_wildcard
needle_of pattern = lstrip_wildcard (map to_lower (strip pattern))

unfoldable pub needles_of : List Rule → List (List ℕ)
unfolding needle_of
needles_of [] = []
needles_of (rule ∷ rules) =
    if rule.match_type == "sni" && not (needle_of rule.pattern == [])
    then needle_of rule.pattern ∷ needles_of rules
    else needles_of rules

-- `_sni_needles`
unfoldable pub sni_needles : List Rule → List (List ℕ)
unfolding sorted set_of needles_of
sni_needles rules = sorted (set_of (needles_of rules))
