-- ===== src/Worker/Cache/Eviction/Laws.antt =====
-- The counters of the cache stay right under its housekeeping.
use go_judge_system.Prelude.{
  ℕ, Text, is_empty, Bool, true, false, if_either, ◌≡◌, refl, Option, none, some, List, [], ◌∷◌,
}
use go_judge_system.Worker.Cache.{Key, Entry, Binding, find_entry, Cache, CacheConfig}
use go_judge_system.Worker.Cache.Weights.{known_size, unsized}
use go_judge_system.Worker.Cache.Accounting.{
  IsAccounted, reput-IsAccounted, store-IsAccounted, remove_if_match-IsAccounted,
  mark_delete_failed-IsAccounted,
}
use go_judge_system.Worker.Cache.Eviction.{
  Row, mark_row, mark_deleting, selection, select_eviction_candidates, delete_candidates, cleanup,
  invalidate_lost, import_name, import_files,
}

mark_row-IsAccounted :
    (k : Key) (o : Option Entry) (c : Cache)
    → find_entry k c.entries ≡ o
    → IsAccounted c
    → IsAccounted (record c { entries = mark_row k o c.entries })
unfolding mark_row known_size unsized
mark_row-IsAccounted k none c found h = h
mark_row-IsAccounted k (some e) c found h = reput-IsAccounted c k e _ found refl refl h

pub mark_deleting-IsAccounted :
    (rows : List Row) (c : Cache)
    → IsAccounted c
    → IsAccounted (record c { entries = mark_deleting rows c.entries })
unfolding mark_deleting
mark_deleting-IsAccounted [] c h = h
mark_deleting-IsAccounted ((k, e) ∷ rows) c h =
    mark_deleting-IsAccounted rows
      (record c { entries = mark_row k (find_entry k c.entries) c.entries })
      (mark_row-IsAccounted k _ c refl h)

delete_candidates-IsAccounted :
    (deletes : Text → Bool) (bs : List Binding) (c : Cache)
    → IsAccounted c
    → IsAccounted (delete_candidates deletes bs c)
unfolding delete_candidates
delete_candidates-IsAccounted deletes [] c h = h
delete_candidates-IsAccounted deletes (b ∷ bs) c h = delete_candidates-IsAccounted deletes bs _ (
    if_either (deletes b.file_id) IsAccounted (remove_if_match-IsAccounted b.key b.file_id c h)
      (mark_delete_failed-IsAccounted b c h))

invalidate_lost-IsAccounted :
    (active : Text → Bool) (bs : List Binding) (c : Cache)
    → IsAccounted c
    → IsAccounted (invalidate_lost active bs c).1
unfolding invalidate_lost
invalidate_lost-IsAccounted active [] c h = h
invalidate_lost-IsAccounted active (b ∷ bs) c h = invalidate_lost-IsAccounted active bs _ (
    if_either (active b.file_id) (λ (p : Bool × Cache). IsAccounted p.1) h
      (remove_if_match-IsAccounted b.key b.file_id c h))

import_name-IsAccounted :
    (now : ℕ) (file_id : Text) (o : Option (Key × Option ℕ)) (c : Cache)
    → IsAccounted c
    → IsAccounted (import_name now file_id o c)
unfolding import_name
import_name-IsAccounted now file_id none c h = h
import_name-IsAccounted now file_id (some (k, none)) c h =
    if_either (is_empty file_id) IsAccounted h (store-IsAccounted now k file_id 0 false c h)
import_name-IsAccounted now file_id (some (k, some n)) c h =
    if_either (is_empty file_id) IsAccounted h (store-IsAccounted now k file_id n true c h)

pub import_files-IsAccounted :
    (now : ℕ) (files : List (Text × Text)) (c : Cache)
    → IsAccounted c
    → IsAccounted (import_files now files c)
unfolding import_files
import_files-IsAccounted now [] c h = h
import_files-IsAccounted now ((file_id, file_name) ∷ files) c h =
    import_files-IsAccounted now files _ (import_name-IsAccounted now file_id _ c h)

-- The counters of the cache, the total as an int64 sum, agree with its entries after a clean-up, after a check for files that the
-- sandbox has lost, and after the files of the sandbox are taken over at a start, whatever the sandbox
-- deletes or lists.
pub housekeeping-IsAccounted :
    (deletes active : Text → Bool) (cfg : CacheConfig) (idle_ttl now : ℕ) (bs : List Binding)
    (files : List (Text × Text)) (c : Cache)
    → IsAccounted c
    → IsAccounted (cleanup deletes cfg idle_ttl now c)
      × (IsAccounted (invalidate_lost active bs c).1 × IsAccounted (import_files now files c))
unfolding cleanup select_eviction_candidates
housekeeping-IsAccounted deletes active cfg idle_ttl now bs files c h = (
  delete_candidates-IsAccounted deletes (select_eviction_candidates cfg idle_ttl now c).0 _
      (mark_deleting-IsAccounted (selection cfg idle_ttl now c).rows c h),
  (invalidate_lost-IsAccounted active bs c h, import_files-IsAccounted now files c h),
)
