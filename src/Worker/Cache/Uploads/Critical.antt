-- ===== src/Worker/Cache/Uploads/Critical.antt =====
-- What single critical sections of the cache take: a stored upload, a choice of what to give up, an admission and
-- the end of a reservation.
use go_judge_system.Prelude.{
  ℕ, suc, ◌+◌, ◌-◌, ◌≤◌, ◌<◌, add_int64, sub_int64, is_negative_int64, exceeds, length, Text,
  text_eq, true, not, ◌&&◌, ◌≡◌, refl, Option, none, some, List, [], ◌∷◌, arith, if_either,
}
use go_judge_system.Worker.Cache.{
  Key, Entry, find_entry, Cache, CacheConfig, reserve, release_reservation, learn_size, uncount,
  remove_accounting, new_entry, count_in, insert_entry, store_over,
}
use go_judge_system.Worker.Cache.Weights.{weigh, known_size, weigh-put_le}
use go_judge_system.Worker.Cache.Limits.{
  length-put_entry, Shrinks, Shrinks-refl, Shrinks-trans, reput-Shrinks, uncount-Shrinks,
}
use go_judge_system.Worker.Cache.Eviction.{Row, mark_row, mark_deleting}

-- What a stored upload takes at most.
pub record Takes (size : ℕ) (c c' : Cache) : Type 0 where
  pub bytes : weigh known_size c'.entries ≤ weigh known_size c.entries + size
  pub count : length c'.entries ≤ suc (length c.entries)
  pub unknown : c'.unknown_entries ≤ c.unknown_entries
  pub held_bytes : c'.reserved_bytes ≡ c.reserved_bytes
  pub held_entries : c'.reserved_entries ≡ c.reserved_entries

pub store_over-Takes :
    (now : ℕ) (k : Key) (file_id : Text) (size : ℕ) (o : Option Entry) (c : Cache)
    → find_entry k c.entries ≡ o
    → Takes size c (store_over now k file_id size true o c)
unfolding store_over insert_entry count_in remove_accounting learn_size known_size new_entry
store_over-Takes now k file_id size none c found = record {
  bytes = weigh-put_le known_size k (new_entry now file_id size true) c.entries;
  count = length-put_entry k _ c.entries;
  unknown = omega arith;
  held_bytes = refl;
  held_entries = refl;
}
store_over-Takes now k file_id size (some e) c found =
    let s = uncount-Shrinks e.size_known e.size_bytes c in
    let c' = uncount e.size_known e.size_bytes c in
    let replaced : Takes size c (insert_entry now k file_id size true c') = record {
      bytes =
          omega (
            arith,
            s.bytes,
            weigh-put_le known_size k (new_entry now file_id size true) c'.entries,
          );
      count =
          omega (arith, s.count, length-put_entry k (new_entry now file_id size true) c'.entries);
      unknown = s.unknown;
      held_bytes = s.held_bytes;
      held_entries = s.held_entries;
    } in
    let same : Takes size c c = record {
      bytes = omega arith;
      count = omega arith;
      unknown = omega arith;
      held_bytes = refl;
      held_entries = refl;
    } in
    let learned : Takes size c (learn_size k size e c) = record {
      bytes =
          weigh-put_le known_size k (record e { size_known = true; size_bytes = size }) c.entries;
      count = length-put_entry k _ c.entries;
      unknown = omega arith;
      held_bytes = refl;
      held_entries = refl;
    } in
    if_either (text_eq e.file_id file_id) (Takes size c)
      (if_either (not e.size_known && true) (Takes size c) learned same) replaced

mark_row-Shrinks :
    (k : Key) (o : Option Entry) (c : Cache)
    → find_entry k c.entries ≡ o
    → Shrinks c (record c { entries = mark_row k o c.entries })
unfolding mark_row known_size
mark_row-Shrinks k none c found = Shrinks-refl c
mark_row-Shrinks k (some e) c found = reput-Shrinks c k e _ found refl

pub mark_deleting-Shrinks :
    (rows : List Row) (c : Cache) → Shrinks c (record c { entries = mark_deleting rows c.entries })
unfolding mark_deleting
mark_deleting-Shrinks [] c = Shrinks-refl c
mark_deleting-Shrinks ((k, e) ∷ rows) c =
    let c' = record c { entries = mark_row k (find_entry k c.entries) c.entries } in
    Shrinks-trans c c' _ (mark_row-Shrinks k _ c refl) (mark_deleting-Shrinks rows c')

-- The limit leaves room for three sums below it in an int64.
abbrev pub HasRoom : CacheConfig → Type 0
HasRoom cfg = cfg.max_bytes < 2305843009213693952

-- What an admission tells, where none of the sums wraps.
pub reserve-eq_true :
    (cfg : CacheConfig) (size : ℕ) (c : Cache)
    → HasRoom cfg
    → c.total_bytes ≤ cfg.max_bytes
    → c.reserved_bytes ≤ cfg.max_bytes
    → (reserve cfg size c).0 ≡ true
    → (c.total_bytes + c.reserved_bytes + size ≤ cfg.max_bytes)
      × (suc (length c.entries + c.reserved_entries) ≤ cfg.max_entries)
      × ((reserve cfg size c).1 ≡ record c {
        reserved_bytes = c.reserved_bytes + size;
        reserved_entries = suc c.reserved_entries;
      })
unfolding reserve add_int64 exceeds
reserve-eq_true cfg size c small total held h = ground arith

-- The end of a reservation that is held.
pub release_reservation_held :
    (size : ℕ) (c : Cache)
    → c.reserved_bytes < 9223372036854775808
    → size ≤ c.reserved_bytes
    → 1 ≤ c.reserved_entries
    → release_reservation size c ≡ record c {
      reserved_bytes = c.reserved_bytes - size;
      reserved_entries = c.reserved_entries - 1;
    }
unfolding release_reservation sub_int64 is_negative_int64
release_reservation_held size c s h g = ground arith
