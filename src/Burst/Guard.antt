-- ===== src/Burst/Guard.antt =====
-- An email on record guards its source: what keeps it on record, and what an eviction may drop.
use ids_bachelor_thesis.Prelude.{
  ℕ, ◌+◌, ◌≤◌, ◌%◌, ◌≡◌, refl, ap, ◌∙◌, number_test, Bool, true, false, String, ◌⊎◌, inl, inr,
  Option-cases, Bool-cases, Option, none, some, List, [], ◌∷◌, ◌++◌, arith, text_test, ◌==◌, keep,
  leb, if◌then◌else◌,
}
use ids_bachelor_thesis.Dict.{keys_where, get, holds, unless}
use ids_bachelor_thesis.Dict.Laws.{get-insert, get-pop_all, contains-keys_where}
use ids_bachelor_thesis.Burst.Defs.{
  Config, Entry, Burst, last_of, bucket_of, evict_idle, count_call, is_idle, add_entry,
}

last_of-cons : (x e : Entry) (ys : List Entry) → last_of ys ≡ some e → last_of (x ∷ ys) ≡ some e
last_of-cons x e [] h = cc h
last_of-cons x e (y ∷ ys) h = h

-- A filter that passes the last item leaves it the last.
last_of-keep :
    (p : Entry → Bool) (xs : List Entry) (e : Entry)
    → p e ≡ true
    → last_of (keep p (xs ++ e ∷ [])) ≡ some e
last_of-keep p [] e h = rw h
last_of-keep p (x ∷ xs) e h = elim (Bool-cases (p x)) [
  | inl kept ↦ rw kept (last_of-cons x e (keep p (xs ++ e ∷ [])) (last_of-keep p xs e h))
  | inr cut ↦ rw cut (last_of-keep p xs e h)
]

-- The newest entry of a source is no older than `t`.
abbrev pub recent_in : ℕ → Option (List Entry) → Bool
recent_in t none = false
recent_in t (some bucket) = elim (last_of bucket) [ none ↦ false | some e ↦ leb t e.at ]

abbrev pub recent_since : ℕ → Burst → String → Bool
recent_since t b ip = recent_in t (get b.events ip)

unless_kept : (p : List Entry → Bool) (o : Option (List Entry)) → holds p o ≡ false → unless p o ≡ o
unless_kept p none h = refl
unless_kept p (some bucket) h = rw h

module _ (c : Config) where
  -- After an email about `ip` at `sent`, either its interval is over, or the email is on record and
  -- `ip` has an entry as new as that.
  abbrev pub Guarded : String → ℕ → ℕ → Burst → Type 0
  Guarded ip sent now b =
      (sent + c.dedup ≤ now) ⊎ ((get b.last_email ip ≡ some sent) × (recent_since sent b ip ≡ true))

  evict_idle-events :
      (now : ℕ) (b : Burst) (ip : String)
      → get (evict_idle c now b).events ip ≡ unless (is_idle c now) (get b.events ip)
  unfolding evict_idle
  evict_idle-events now b ip = ground (
    arith,
    get-pop_all b.events (keys_where (is_idle c now) b.events) ip,
    contains-keys_where (is_idle c now) b.events ip,
  )

  evict_idle-last_email :
      (now : ℕ) (b : Burst) (ip : String)
      → get (evict_idle c now b).last_email ip
        ≡ (if holds (is_idle c now) (get b.events ip) then none else get b.last_email ip)
  unfolding evict_idle
  evict_idle-last_email now b ip = ground (
    arith,
    get-pop_all b.last_email (keys_where (is_idle c now) b.events) ip,
    contains-keys_where (is_idle c now) b.events ip,
  )

  -- A source is idle only when every interval from its newest entry is over.
  idle_is_over :
      (ip : String) (sent now : ℕ) (b : Burst)
      → recent_since sent b ip ≡ true
      → holds (is_idle c now) (get b.events ip) ≡ true
      → sent + c.dedup ≤ now
  idle_is_over ip sent now b fresh idle = elim (Option-cases (get b.events ip)) [
    | inl nothing ↦ cc (rw nothing at idle)
    | inr (bucket, e) ↦ elim (Option-cases (last_of bucket)) [
      | inl nothing ↦ ground arith
      | inr (x, e') ↦ ground arith
    ]
  ]

  evict_idle-Guarded :
      (ip : String) (sent now : ℕ) (b : Burst)
      → get b.last_email ip ≡ some sent
      → recent_since sent b ip ≡ true
      → Guarded ip sent now (evict_idle c now b)
  evict_idle-Guarded ip sent now b kept fresh =
      elim (Bool-cases (holds (is_idle c now) (get b.events ip))) [
        | inl idle ↦ inl (idle_is_over ip sent now b fresh idle)
        | inr live ↦ inr (
          evict_idle-last_email now b ip ∙ rw live kept,
          ap (recent_in sent)
                (evict_idle-events now b ip ∙ unless_kept (is_idle c now) (get b.events ip) live)
              ∙ fresh,
        )
      ]

  pub count_call-Guarded :
      (ip : String) (sent before now : ℕ) (b : Burst)
      → before ≤ now
      → Guarded ip sent before b
      → Guarded ip sent now (count_call c now b)
  unfolding count_call
  count_call-Guarded ip sent before now b le (inl over) = inl (omega arith)
  count_call-Guarded ip sent before now b le (inr (kept, fresh)) =
      elim (Bool-cases ((b.evict_counter + 1) % c.evict_every == 0)) [
        | inl due ↦ rw due (
            evict_idle-Guarded ip sent now (record b { evict_counter = b.evict_counter + 1 }) kept
              fresh)
        | inr not_due ↦ rw not_due (inr (kept, fresh))
      ]

  pub add_entry-Guarded :
      (ip : String) (sent now : ℕ) (src : String) (e : Entry) (b : Burst)
      → sent ≤ now
      → e.at ≡ now
      → Guarded ip sent now b
      → Guarded ip sent now (add_entry c now src e b)
  unfolding add_entry
  add_entry-Guarded ip sent now src e b le at (inl over) = inl over
  add_entry-Guarded ip sent now src e b le at (inr (kept, fresh)) = inr (
    kept,
    ground (
      arith,
      get-insert b.events src (keep (λ x. leb now (x.at + c.window)) (bucket_of b src ++ e ∷ []))
          ip,
      text_test.test_iff src ip,
      last_of-keep (λ x. leb now (x.at + c.window)) (bucket_of b src) e (ground arith),
    ),
  )

  pub add_entry-fresh :
      (now : ℕ) (src : String) (e : Entry) (b : Burst)
      → e.at ≡ now
      → recent_since now (add_entry c now src e b) src ≡ true
  unfolding add_entry
  add_entry-fresh now src e b at = ground (
    arith,
    get-insert b.events src (keep (λ x. leb now (x.at + c.window)) (bucket_of b src ++ e ∷ [])) src,
    text_test.test_iff src src,
    last_of-keep (λ x. leb now (x.at + c.window)) (bucket_of b src) e (ground arith),
  )
