-- ===== src/Cache/Examples.antt =====
-- Runs of a small cache.
use panmail.Base.Dict.{lookup, put, delete}
use panmail.Base.Int.{pos}
use panmail.Base.{[], none, refl, some, ℕ, ◌≡◌, ◌≤◌, String, ◌+◌}
use panmail.Cache.{
  TtlCache, Entry, get, put_value, len, new_with_limit, limit_of, write, write_if_room,
  evict_expired, evict_from,
}
use panmail.Cache.Fresh.{Run-fresh, written, created}

abbrev small : TtlCache ℕ
small = new_with_limit ℕ 10 (pos 1)

one_entry : len (put_value 5 "a" 7 small) ≡ 1
unfolding len put_value write new_with_limit lookup put
one_entry = refl

full_refuses : (get 6 "b" (put_value 6 "b" 8 (put_value 5 "a" 7 small))).1 ≡ none
unfolding get put_value write write_if_room evict_expired evict_from new_with_limit lookup put
full_refuses = refl

expired_makes_room : (get 17 "b" (put_value 16 "b" 8 (put_value 5 "a" 7 small))).1 ≡ some 8
unfolding get put_value write write_if_room evict_expired evict_from new_with_limit lookup put
    delete
expired_makes_room = refl

Run-fresh_example :
    (len (put_value 16 "b" 8 (put_value 5 "a" 7 small)) ≤ limit_of (pos 1))
    × ((now : ℕ) (key : String) (value : ℕ)
        → (get now key (put_value 16 "b" 8 (put_value 5 "a" 7 small))).1 ≡ some value
        → (e : Entry ℕ) × (lookup key (
              put "b"
                (record { value = 8; expires_at = 16 + 10 })
                (put "a" (record { value = 7; expires_at = 5 + 10 }) []))
            ≡ some e)
          × (e.value ≡ value)
          × (now ≤ e.expires_at))
Run-fresh_example = Run-fresh (written 16 "b" 8 (written 5 "a" 7 created))
