-- ===== src/Cache.antt =====
-- pkg/cache/ttl_cache.go: a bounded map whose entries expire.
--
-- One operation at a time, as the mutex makes them. The clock is an argument; instants and the
-- lifetime, which the callers make positive, are in nanoseconds.
pub mod Fresh
mod Examples
use panmail.Base.{
  [], if◌then◌else◌, none, some, ◌∷◌, String, ℕ, Bool, Option, leb, length, ◌+◌, ltb,
}
use panmail.Base.Dict.{Dict, lookup, put, delete}
use panmail.Base.Int.{ℤ, pos, leb_ℤ, pos_part}

abbrev pub default_max_entries : ℕ
default_max_entries = 4096

abbrev pub limit_of : ℤ → ℕ
limit_of n = if leb_ℤ n (pos 0) then default_max_entries else pos_part n

module _ {ℓ} (V : Type ℓ) where
  pub record Entry : Type ℓ where
    pub value : V
    pub expires_at : ℕ

  pub record TtlCache : Type ℓ where
    pub entries : Dict Entry
    pub ttl : ℕ
    pub max_entries : ℕ

  unfoldable pub new_with_limit : ℕ → ℤ → TtlCache
  new_with_limit ttl max_entries = record {
    entries = [];
    ttl = ttl;
    max_entries = limit_of max_entries;
  }

module _ {ℓ} {V : Type ℓ} where
  -- `now.After(e.expiresAt)`
  abbrev pub is_expired : ℕ → Entry V → Bool
  is_expired now e = ltb e.expires_at now

  -- The cache after a read, beside the value.
  unfoldable pub get : ℕ → String → TtlCache V → TtlCache V × Option V
  get now key c = elim (lookup key c.entries) [
    | none ↦ (c, none)
    | some e ↦
        if is_expired now e
        then (record c { entries = delete key c.entries }, none)
        else (c, some e.value)
  ]

  -- The loop of `evictExpiredLocked` over the entries there were, on the map that it changes.
  unfoldable pub evict_from : ℕ → Dict (Entry V) → Dict (Entry V) → Dict (Entry V)
  evict_from now [] m = m
  evict_from now ((key, e) ∷ rest) m =
      evict_from now rest (if is_expired now e then delete key m else m)

  unfoldable pub evict_expired : ℕ → TtlCache V → TtlCache V
  evict_expired now c = record c { entries = evict_from now c.entries c.entries }

  abbrev pub entry : ℕ → ℕ → V → Entry V
  entry now ttl value = record { value = value; expires_at = now + ttl }

  unfoldable pub write : ℕ → String → V → TtlCache V → TtlCache V
  write now key value c = record c { entries = put key (entry now c.ttl value) c.entries }

  -- The test for room after the eviction.
  unfoldable pub write_if_room : ℕ → String → V → TtlCache V → TtlCache V
  write_if_room now key value c =
      if leb c.max_entries (length c.entries) then c else write now key value c

  unfoldable pub put_value : ℕ → String → V → TtlCache V → TtlCache V
  put_value now key value c = elim (lookup key c.entries) [
    | some e ↦ write now key value c
    | none ↦
        if leb c.max_entries (length c.entries)
        then write_if_room now key value (evict_expired now c)
        else write now key value c
  ]

  unfoldable pub drop : String → TtlCache V → TtlCache V
  drop key c = record c { entries = delete key c.entries }

  unfoldable pub len : TtlCache V → ℕ
  len c = length c.entries
