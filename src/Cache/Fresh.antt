-- ===== src/Cache/Fresh.antt =====
-- The cache against the map of what was last written: it stays within its limit and answers only
-- with that, before it expires.
use text.Mathlib.Text.{◌==◌}
use text.Mathlib.TextPositions.{eq_refl}
use text.Mathlib.TextEquality.{eq_iff}
use panmail.Base.{
  [], inl, inr, none, some, ◌∷◌, String, length, ℕ, Bool-cases, Option-cases, arith, ◌+◌, ◌≡◌, ◌≤◌,
  leb, refl, subst, ◌≢◌, ◌⊎◌, ◌<◌,
}
use panmail.Cache.{
  TtlCache, Entry, get, put_value, drop, len, write, write_if_room, evict_from, evict_expired,
  new_with_limit, is_expired, entry, limit_of,
}
use panmail.Base.Dict.{
  Dict, lookup, put, delete, lookup-put, lookup-delete, length-put-le, length-put_old,
  length-delete-le,
}
use panmail.Base.Int.{ℤ}

module _ {ℓ} {V : Type ℓ} where
  -- Runs of a new cache, beside the map of what was last written and not deleted.
  pub data Run (ttl : ℕ) (limit : ℤ) : TtlCache V → Dict (Entry V) → Type ℓ where
    created : Run ttl limit (new_with_limit V ttl limit) []
    read :
        {c : TtlCache V} {m : Dict (Entry V)} (now : ℕ) (key : String)
        → Run ttl limit c m
        → Run ttl limit (get now key c).0 m
    written :
        {c : TtlCache V} {m : Dict (Entry V)} (now : ℕ) (key : String) (value : V)
        → Run ttl limit c m
        → Run ttl limit (put_value now key value c) (put key (entry now ttl value) m)
    dropped :
        {c : TtlCache V} {m : Dict (Entry V)} (key : String)
        → Run ttl limit c m
        → Run ttl limit (drop key c) (delete key m)

  -- Each entry of the first map is the second's.
  abbrev Within : Dict (Entry V) → Dict (Entry V) → Type ℓ
  Within c m = (k : String) (e : Entry V) → lookup k c ≡ some e → lookup k m ≡ some e

  Within-delete : (k : String) (c m : Dict (Entry V)) → Within c m → Within (delete k c) m
  Within-delete k c m h j e q = h j e (ground (arith, lookup-delete k j c))

  Within-delete_both :
      (k : String) (c m : Dict (Entry V)) → Within c m → Within (delete k c) (delete k m)
  Within-delete_both k c m h j e q = ground (arith, lookup-delete k j c, lookup-delete k j m, h j e)

  Within-put :
      (k : String) (v : Entry V) (c m : Dict (Entry V))
      → Within c m
      → Within (put k v c) (put k v m)
  Within-put k v c m h j e q = ground (arith, lookup-put k j v c, lookup-put k j v m, h j e)

  Within-absent :
      (k : String) (v : Entry V) (c m : Dict (Entry V))
      → lookup k c ≡ none
      → Within c m
      → Within c (put k v m)
  Within-absent k v c m a h j e q = elim (Bool-cases (k == j)) [
    | inl x ↦ absurd (ground (arith, eq_iff k j))
    | inr x ↦ ground (arith, lookup-put k j v m, h j e)
  ]

  Within-evict_from :
      (now : ℕ) (rest c m : Dict (Entry V)) → Within c m → Within (evict_from now rest c) m
  unfolding evict_from
  Within-evict_from now [] c m h = h
  Within-evict_from now ((k, e) ∷ rest) c m h = elim (Bool-cases (is_expired now e)) [
    | inl q ↦ rw q (Within-evict_from now rest (delete k c) m (Within-delete k c m h))
    | inr q ↦ rw q (Within-evict_from now rest c m h)
  ]

  length-evict_from-le :
      (now : ℕ) (rest c : Dict (Entry V)) → length (evict_from now rest c) ≤ length c
  unfolding evict_from
  length-evict_from-le now [] c = omega arith
  length-evict_from-le now ((k, e) ∷ rest) c = ground (
    arith,
    length-evict_from-le now rest c,
    length-evict_from-le now rest (delete k c),
    length-delete-le k c,
  )

  abbrev IsBounded : TtlCache V → Type 0
  IsBounded c = length c.entries ≤ c.max_entries

  get-Within :
      (now : ℕ) (key : String) (c : TtlCache V) (m : Dict (Entry V))
      → Within c.entries m
      → Within (get now key c).0.entries m
  unfolding get
  get-Within now key c m h = elim (Option-cases (lookup key c.entries)) [
    | inl q ↦ rw (q, get) h
    | inr (e, q) ↦ elim (Bool-cases (is_expired now e)) [
      | inl x ↦ rw (q, get, x) (Within-delete key c.entries m h)
      | inr x ↦ rw (q, get, x) h
    ]
  ]

  write_if_room-Within :
      (now : ℕ) (key : String) (value : V) (c : TtlCache V) (m : Dict (Entry V))
      → lookup key c.entries ≡ none
      → Within c.entries m
      → Within (write_if_room now key value c).entries (put key (entry now c.ttl value) m)
  unfolding write_if_room write
  write_if_room-Within now key value c m a h =
      let e = entry now c.ttl value in
      elim (Bool-cases (leb c.max_entries (length c.entries))) [
        | inl q ↦ rw q (Within-absent key e c.entries m a h)
        | inr q ↦ rw q (Within-put key e c.entries m h)
      ]

  lookup-evict_from-none :
      (now : ℕ) (key : String) (rest c : Dict (Entry V))
      → lookup key c ≡ none
      → lookup key (evict_from now rest c) ≡ none
  unfolding evict_from
  lookup-evict_from-none now key [] c h = h
  lookup-evict_from-none now key ((k, e) ∷ rest) c h = elim (Bool-cases (is_expired now e)) [
    | inl q ↦
        rw q
          (lookup-evict_from-none now key rest (delete k c) (ground (arith, lookup-delete k key c)))
    | inr q ↦ rw q (lookup-evict_from-none now key rest c h)
  ]

  put_value-Within :
      (now : ℕ) (key : String) (value : V) (c : TtlCache V) (m : Dict (Entry V))
      → Within c.entries m
      → Within (put_value now key value c).entries (put key (entry now c.ttl value) m)
  unfolding put_value write evict_expired
  put_value-Within now key value c m h =
      let e = entry now c.ttl value in
      elim (Option-cases (lookup key c.entries)) [
        | inl a ↦ elim (Bool-cases (leb c.max_entries (length c.entries))) [
          | inl q ↦
              rw (put_value, a, q)
                (write_if_room-Within now key value (evict_expired now c) m
                  (lookup-evict_from-none now key c.entries c.entries a)
                  (Within-evict_from now c.entries c.entries m h))
          | inr q ↦ rw (put_value, a, q) (Within-put key e c.entries m h)
        ]
        | inr (old, a) ↦ rw (put_value, a) (Within-put key e c.entries m h)
      ]

  put_value-IsBounded :
      (now : ℕ) (key : String) (value : V) (c : TtlCache V)
      → IsBounded c
      → IsBounded (put_value now key value c)
  unfolding put_value write write_if_room evict_expired
  put_value-IsBounded now key value c h =
      let e = entry now c.ttl value in
      elim (Option-cases (lookup key c.entries)) [
        | inl a ↦ ground (
          arith,
          length-put-le key e c.entries,
          length-evict_from-le now c.entries c.entries,
          length-put-le key e (evict_from now c.entries c.entries),
        )
        | inr (old, a) ↦ rw (put_value, a, length-put_old key e {w = old} c.entries a) h
      ]

  put_value-limit :
      (now : ℕ) (key : String) (value : V) (c : TtlCache V)
      → ((put_value now key value c).ttl ≡ c.ttl)
        × ((put_value now key value c).max_entries ≡ c.max_entries)
  unfolding put_value write write_if_room evict_expired
  put_value-limit now key value c = ground arith

  get-limit :
      (now : ℕ) (key : String) (c : TtlCache V)
      → ((get now key c).0.ttl ≡ c.ttl)
        × ((get now key c).0.max_entries ≡ c.max_entries)
        × (length (get now key c).0.entries ≤ length c.entries)
  unfolding get
  get-limit now key c = ground (arith, length-delete-le key c.entries)

  -- What holds after any run.
  record Sound (ttl : ℕ) (limit : ℤ) (c : TtlCache V) (m : Dict (Entry V)) : Type ℓ where
    pub lifetime : c.ttl ≡ ttl
    pub bounded : IsBounded c
    pub within : Within c.entries m
    pub limited : c.max_entries ≡ limit_of limit

  Run-Sound :
      {ttl : ℕ} {limit : ℤ} {c : TtlCache V} {m : Dict (Entry V)}
      → Run ttl limit c m
      → Sound ttl limit c m
  unfolding new_with_limit drop
  Run-Sound created = record {
    lifetime = refl;
    bounded = omega arith;
    within = λ k e q. q;
    limited = refl;
  }
  Run-Sound (read {c = c} {m = m} now key r) =
      let s = Run-Sound r in
      record {
        lifetime = ground (arith, s.lifetime, get-limit now key c);
        bounded = ground (arith, s.bounded, get-limit now key c);
        within = get-Within now key c m s.within;
        limited = ground (arith, s.limited, get-limit now key c);
      }
  Run-Sound {ttl = ttl} (written {c = c} {m = m} now key value r) =
      let s = Run-Sound r in
      record {
        lifetime = ground (arith, s.lifetime, put_value-limit now key value c);
        bounded = put_value-IsBounded now key value c s.bounded;
        within =
            subst (λ t. Within (put_value now key value c).entries (put key (entry now t value) m))
              s.lifetime (put_value-Within now key value c m s.within);
        limited = ground (arith, s.limited, put_value-limit now key value c);
      }
  Run-Sound (dropped {c = c} {m = m} key r) =
      let s = Run-Sound r in
      record {
        lifetime = s.lifetime;
        bounded = ground (arith, s.bounded, length-delete-le key c.entries);
        within = Within-delete_both key c.entries m s.within;
        limited = s.limited;
      }

  -- After any sequence of reads, writes and deletions, at any clock readings, the cache holds no
  -- more entries than its limit; and a read answers only with the value last written under its
  -- key, not deleted since, and not past its lifetime.
  pub Run-fresh :
      {ttl : ℕ} {limit : ℤ} {c : TtlCache V} {m : Dict (Entry V)}
      → Run ttl limit c m
      → (len c ≤ limit_of limit)
        × ((now : ℕ) (key : String) (value : V)
            → (get now key c).1 ≡ some value
            → (e : Entry V) × (lookup key m ≡ some e) × (e.value ≡ value) × (now ≤ e.expires_at))
  unfolding len get
  Run-fresh {c = c} r =
      let s = Run-Sound r in
      (
        ground (arith, s.bounded, s.limited),
        λ now key value q. elim (Option-cases (lookup key c.entries)) [
          | inl a ↦ absurd (ground arith)
          | inr (e, a) ↦ (e, s.within key e a, ground arith, ground arith)
        ],
      )

  -- A value is answered until its lifetime is over, if the write found its key or room in the
  -- cache.
  get-put_value :
      (now later : ℕ) (key : String) (value : V) (c : TtlCache V)
      → later ≤ now + c.ttl
      → (lookup key c.entries ≢ none) ⊎ (len c < c.max_entries)
      → (get later key (put_value now key value c)).1 ≡ some value
  unfolding get put_value write len
  get-put_value now later key value c fits room =
      ground (arith, lookup-put key key (entry now c.ttl value) c.entries, eq_refl key)
