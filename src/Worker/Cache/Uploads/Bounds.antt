-- ===== src/Worker/Cache/Uploads/Bounds.antt =====
-- The limits hold after every step of the uploads.
use go_judge_system.Prelude.{ℕ, length, Text, true, ◌≡◌, refl, ap, ◌∙◌, List, ◌∷◌, ◌++◌, arith}
use go_judge_system.Worker.Cache.{
  Key, Cache, CacheConfig, reserve, release_reservation, pin, store, remove_if_match,
  mark_delete_failed,
}
use go_judge_system.Worker.Cache.Weights.{weigh, known_size}
use go_judge_system.Worker.Cache.Accounting.{
  IsAccounted, empty_cache-IsAccounted, pin-IsAccounted, release-IsAccounted, store-IsAccounted,
  remove_if_match-IsAccounted, mark_delete_failed-IsAccounted, reserve-IsAccounted,
  release_reservation-IsAccounted,
}
use go_judge_system.Worker.Cache.Limits.{
  sum, sum-middle, length-middle, Shrinks, pin_entry-Shrinks, release-Shrinks, remove_entry-Shrinks,
  delete_failed_entry-Shrinks,
}
use go_judge_system.Worker.Cache.Eviction.{selection, select_eviction_candidates}
use go_judge_system.Worker.Cache.Eviction.Laws.{mark_deleting-IsAccounted}
use go_judge_system.Worker.Cache.Uploads.{
  Uploads, CacheStep, admits, uploads, fails, finishes, pins, unpins, removes, selects, keeps,
  CacheRun, fresh, later, IsWithin,
}
use go_judge_system.Worker.Cache.Uploads.Critical.{
  store_over-Takes, mark_deleting-Shrinks, HasRoom, reserve-eq_true, release_reservation_held,
}

Shrinks-IsWithin :
    (cfg : CacheConfig) (u : Uploads) (c : Cache)
    → Shrinks u.cache c
    → IsAccounted c
    → IsWithin cfg u
    → IsWithin cfg (record u { cache = c })
Shrinks-IsWithin cfg u c s a w = record {
  accounted = a;
  all_known = omega (arith, s.unknown, w.all_known);
  held_bytes = s.held_bytes ∙ w.held_bytes;
  held_entries = s.held_entries ∙ w.held_entries;
  bytes = omega (arith, s.bytes, w.bytes);
  held_most = omega (arith, s.held_bytes, w.held_most);
  count = omega (arith, s.count, w.count);
}

total_within :
    (cfg : CacheConfig) (u : Uploads)
    → HasRoom cfg
    → IsWithin cfg u
    → u.cache.total_bytes ≡ weigh known_size u.cache.entries
total_within cfg u room w = omega (arith, room, w.bytes, w.accounted.bytes)

module _ (cfg : CacheConfig) (room : HasRoom cfg) (u : Uploads) (w : IsWithin cfg u) where
  admitted-IsWithin :
      (size : ℕ)
      → (reserve cfg size u.cache).0 ≡ true
      → IsWithin cfg (record u { cache = (reserve cfg size u.cache).1; pending = size ∷ u.pending })
  unfolding sum
  admitted-IsWithin size h =
      let (bytes, count, same) =
        reserve-eq_true cfg size u.cache room (omega (arith, total_within cfg u room w, w.bytes))
          w.held_most h in
      record {
        accounted = reserve-IsAccounted cfg size u.cache w.accounted;
        all_known = ap (λ c. c.unknown_entries) same ∙ w.all_known;
        held_bytes = omega (arith, ap (λ c. c.reserved_bytes) same, w.held_bytes);
        held_entries = omega (arith, ap (λ c. c.reserved_entries) same, w.held_entries);
        bytes = omega (
          arith,
          ap (λ c. weigh known_size c.entries) same,
          bytes,
          w.held_bytes,
          total_within cfg u room w,
        );
        held_most = omega (arith, ap (λ c. c.reserved_bytes) same, bytes);
        count = omega (arith, ap (λ c. length c.entries) same, count, w.held_entries);
      }

  uploaded-IsWithin :
      (now : ℕ) (k : Key) (file_id : Text) (size : ℕ) (xs ys : List ℕ)
      → u.pending ≡ xs ++ size ∷ ys
      → IsWithin cfg (record {
        cache = store now k file_id size true u.cache;
        pending = xs ++ ys;
        stored = size ∷ u.stored;
      })
  unfolding sum store
  uploaded-IsWithin now k file_id size xs ys split =
      let t = store_over-Takes now k file_id size _ u.cache refl in
      let total = ap sum split ∙ sum-middle xs ys size in
      let many = ap length split ∙ length-middle xs ys size in
      record {
        accounted = store-IsAccounted now k file_id size true u.cache w.accounted;
        all_known = omega (arith, t.unknown, w.all_known);
        held_bytes = omega (arith, t.held_bytes, w.held_bytes, total);
        held_entries = omega (arith, t.held_entries, w.held_entries, many);
        bytes = omega (arith, t.bytes, w.bytes, total);
        held_most = omega (arith, t.held_bytes, w.held_most);
        count = omega (arith, t.count, w.count, many);
      }

  failed-IsWithin :
      (size : ℕ) (xs ys : List ℕ)
      → u.pending ≡ xs ++ size ∷ ys
      → IsWithin cfg (record u { cache = release_reservation size u.cache; pending = xs ++ ys })
  failed-IsWithin size xs ys split =
      let total = ap sum split ∙ sum-middle xs ys size in
      let many = ap length split ∙ length-middle xs ys size in
      let same =
        release_reservation_held size u.cache (omega (arith, room, w.held_most))
          (omega (arith, total, w.held_bytes)) (omega (arith, many, w.held_entries)) in
      record {
        accounted = release_reservation-IsAccounted size u.cache w.accounted;
        all_known = ap (λ c. c.unknown_entries) same ∙ w.all_known;
        held_bytes = omega (arith, ap (λ c. c.reserved_bytes) same, w.held_bytes, total);
        held_entries = omega (arith, ap (λ c. c.reserved_entries) same, w.held_entries, many);
        bytes = omega (arith, ap (λ c. weigh known_size c.entries) same, w.bytes, total);
        held_most = omega (arith, ap (λ c. c.reserved_bytes) same, w.held_most);
        count = omega (arith, ap (λ c. length c.entries) same, w.count, many);
      }

  finished-IsWithin :
      (size : ℕ) (xs ys : List ℕ)
      → u.stored ≡ xs ++ size ∷ ys
      → IsWithin cfg (record u { cache = release_reservation size u.cache; stored = xs ++ ys })
  finished-IsWithin size xs ys split =
      let total = ap sum split ∙ sum-middle xs ys size in
      let many = ap length split ∙ length-middle xs ys size in
      let same =
        release_reservation_held size u.cache (omega (arith, room, w.held_most))
          (omega (arith, total, w.held_bytes)) (omega (arith, many, w.held_entries)) in
      record {
        accounted = release_reservation-IsAccounted size u.cache w.accounted;
        all_known = ap (λ c. c.unknown_entries) same ∙ w.all_known;
        held_bytes = omega (arith, ap (λ c. c.reserved_bytes) same, w.held_bytes, total);
        held_entries = omega (arith, ap (λ c. c.reserved_entries) same, w.held_entries, many);
        bytes = omega (arith, ap (λ c. weigh known_size c.entries) same, w.bytes);
        held_most = omega (arith, ap (λ c. c.reserved_bytes) same, w.held_most);
        count = omega (arith, ap (λ c. length c.entries) same, w.count);
      }

CacheStep-IsWithin :
    (cfg : CacheConfig)
    → HasRoom cfg
    → {u v : Uploads} → CacheStep cfg u v
    → IsWithin cfg u
    → IsWithin cfg v
unfolding pin remove_if_match mark_delete_failed select_eviction_candidates
CacheStep-IsWithin cfg room {u} (admits size h) w = admitted-IsWithin cfg room u w size h
CacheStep-IsWithin cfg room {u} (uploads now k file_id size xs ys h) w =
    uploaded-IsWithin cfg room u w now k file_id size xs ys h
CacheStep-IsWithin cfg room {u} (fails size xs ys h) w = failed-IsWithin cfg room u w size xs ys h
CacheStep-IsWithin cfg room {u} (finishes size xs ys h) w =
    finished-IsWithin cfg room u w size xs ys h
CacheStep-IsWithin cfg room {u} (pins now k size) w =
    Shrinks-IsWithin cfg u _ (pin_entry-Shrinks now k size _ u.cache w.accounted w.all_known refl)
      (pin-IsAccounted now k size u.cache w.accounted) w
CacheStep-IsWithin cfg room {u} (unpins now bs) w =
    Shrinks-IsWithin cfg u _ (release-Shrinks now bs u.cache)
      (release-IsAccounted now bs u.cache w.accounted) w
CacheStep-IsWithin cfg room {u} (removes k file_id) w =
    Shrinks-IsWithin cfg u _ (remove_entry-Shrinks k file_id _ u.cache refl)
      (remove_if_match-IsAccounted k file_id u.cache w.accounted) w
CacheStep-IsWithin cfg room {u} (selects idle_ttl now) w =
    Shrinks-IsWithin cfg u _
      (mark_deleting-Shrinks (selection cfg idle_ttl now u.cache).rows u.cache)
      (mark_deleting-IsAccounted (selection cfg idle_ttl now u.cache).rows u.cache w.accounted) w
CacheStep-IsWithin cfg room {u} (keeps b) w =
    Shrinks-IsWithin cfg u _ (delete_failed_entry-Shrinks b _ u.cache refl)
      (mark_delete_failed-IsAccounted b u.cache w.accounted) w

-- With a limit below 2^61 bytes, from an empty cache and with no file taken over from an earlier process, over
-- every interleaving of admissions, uploads, failed uploads, ends of reservations, pins, releases, choices of
-- what to give up, removals and failed removals: the stored bytes with those of the running uploads never
-- exceed the limit, nor do the entries; the counters agree with the entries; and the reservations that are
-- held are those of the uploads.
pub CacheRun-IsWithin :
    (cfg : CacheConfig) → HasRoom cfg → {u : Uploads} → CacheRun cfg u → IsWithin cfg u
unfolding sum weigh
CacheRun-IsWithin cfg room fresh = record {
  accounted = empty_cache-IsAccounted;
  all_known = refl;
  held_bytes = refl;
  held_entries = refl;
  bytes = omega arith;
  held_most = omega arith;
  count = omega arith;
}
CacheRun-IsWithin cfg room (later r st) =
    CacheStep-IsWithin cfg room st (CacheRun-IsWithin cfg room r)
