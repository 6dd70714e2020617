-- ===== src/Worker/Cache/Uploads.antt =====
-- The uploads of `getOrAdd` as steps: a reservation, the upload itself, and the end of the
-- reservation, between which any other critical section may run but the take-over of files at a
-- start: no entry is of an earlier process, so the size of every entry is known.
pub mod Critical
pub mod Bounds
use go_judge_system.Prelude.{
  ℕ, suc, ◌+◌, ◌-◌, ◌≤◌, length, Text, text_eq, true, not, ◌&&◌, ◌≡◌, refl, ap, ◌∙◌, Option, none,
  some, List, [], ◌∷◌, ◌++◌, arith, if_either,
}
use go_judge_system.Worker.Cache.{
  Key, Entry, Binding, find_entry, Cache, CacheConfig, empty_cache, reserve, release_reservation,
  learn_size, pin, release, uncount, remove_accounting, new_entry, count_in, insert_entry,
  store_over, store, remove_if_match, mark_delete_failed,
}
use go_judge_system.Worker.Cache.Weights.{weigh, known_size}
use go_judge_system.Worker.Cache.Eviction.{select_eviction_candidates}
use go_judge_system.Worker.Cache.Accounting.{
  IsAccounted, empty_cache-IsAccounted, pin-IsAccounted, release-IsAccounted, store-IsAccounted,
  remove_if_match-IsAccounted, mark_delete_failed-IsAccounted, reserve-IsAccounted,
  release_reservation-IsAccounted,
}
use go_judge_system.Worker.Cache.Limits.{
  sum, sum-middle, length-middle, length-put_entry, Shrinks, uncount-Shrinks, pin_entry-Shrinks,
  release-Shrinks, remove_entry-Shrinks, delete_failed_entry-Shrinks,
}

-- The cache with the sizes that are reserved: of uploads that run, and of uploads that are stored
-- whose reservation has not ended.
pub record Uploads : Type 0 where
  pub cache : Cache
  pub pending : List ℕ
  pub stored : List ℕ

abbrev pub no_uploads : Uploads
no_uploads = record { cache = empty_cache; pending = []; stored = [] }

pub data CacheStep (cfg : CacheConfig) (u : Uploads) : Uploads → Type 0 where
  admits :
      (size : ℕ)
      → (reserve cfg size u.cache).0 ≡ true
      → CacheStep cfg u
          (record u { cache = (reserve cfg size u.cache).1; pending = size ∷ u.pending })
  uploads :
      (now : ℕ) (k : Key) (file_id : Text) (size : ℕ) (xs ys : List ℕ)
      → u.pending ≡ xs ++ size ∷ ys
      → CacheStep cfg u (record {
        cache = store now k file_id size true u.cache;
        pending = xs ++ ys;
        stored = size ∷ u.stored;
      })
  fails :
      (size : ℕ) (xs ys : List ℕ)
      → u.pending ≡ xs ++ size ∷ ys
      → CacheStep cfg u (record u { cache = release_reservation size u.cache; pending = xs ++ ys })
  finishes :
      (size : ℕ) (xs ys : List ℕ)
      → u.stored ≡ xs ++ size ∷ ys
      → CacheStep cfg u (record u { cache = release_reservation size u.cache; stored = xs ++ ys })
  pins :
      (now : ℕ) (k : Key) (size : ℕ)
      → CacheStep cfg u (record u { cache = (pin now k size u.cache).1 })
  unpins :
      (now : ℕ) (bs : List Binding) → CacheStep cfg u (record u { cache = release now bs u.cache })
  removes :
      (k : Key) (file_id : Text)
      → CacheStep cfg u (record u { cache = (remove_if_match k file_id u.cache).1 })
  selects :
      (idle_ttl now : ℕ)
      → CacheStep cfg u
          (record u { cache = (select_eviction_candidates cfg idle_ttl now u.cache).1 })
  keeps : (b : Binding) → CacheStep cfg u (record u { cache = mark_delete_failed b u.cache })

pub data CacheRun (cfg : CacheConfig) : Uploads → Type 0 where
  fresh : CacheRun cfg no_uploads
  later : {u v : Uploads} → CacheRun cfg u → CacheStep cfg u v → CacheRun cfg v

-- The limits, with what the running uploads may still add.
pub record IsWithin (cfg : CacheConfig) (u : Uploads) : Type 0 where
  pub accounted : IsAccounted u.cache
  pub all_known : u.cache.unknown_entries ≡ 0
  pub held_bytes : u.cache.reserved_bytes ≡ sum u.pending + sum u.stored
  pub held_entries : u.cache.reserved_entries ≡ length u.pending + length u.stored
  pub bytes : weigh known_size u.cache.entries + sum u.pending ≤ cfg.max_bytes
  pub held_most : u.cache.reserved_bytes ≤ cfg.max_bytes
  pub count : length u.cache.entries + length u.pending ≤ cfg.max_entries
