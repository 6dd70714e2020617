-- ===== src/Worker/Cache/Eviction.antt =====
-- testcase_cache.go: which entries the cache gives up (`selectEvictionCandidates`, `cleanup`), and how it
-- finds out that entries are gone (`invalidateMissing`, `reconcile`). Times and durations are numbers.
pub mod Candidates
pub mod Choice
pub mod Laws
use go_judge_system.Prelude.{
  ℕ, suc, ◌+◌, ◌-◌, leb, ltb, ◌==◌, sub_int64, exceeds, length, Text, text_eq, is_empty, Bool, true,
  false, not, ◌&&◌, ◌||◌, Option, none, some, List, [], ◌∷◌, if◌then◌else◌,
}
use go_judge_system.Worker.Cache.{
  Key, Entry, Binding, Entries, put_entry, find_entry, Cache, CacheConfig, store, remove_if_match,
  mark_delete_failed,
}
use go_judge_system.Worker.Cache.Names.{name, parse_testcase_cache_name}

-- `<` on strings.
unfoldable pub text_less : Text → Text → Bool
text_less s [] = false
text_less [] (d ∷ t) = true
text_less (c ∷ s) (d ∷ t) = let rest = text_less s t in if c == d then rest else ltb c d

abbrev pub Row : Type 0
Row = Key × Entry

-- The order of the candidates: by their last use, and by their names where those are equal.
unfoldable pub evicted_before : Row → Row → Bool
unfolding text_less
evicted_before (j, d) (k, e) =
    if d.last_used == e.last_used then text_less (name j) (name k) else ltb d.last_used e.last_used

unfoldable pub insert_candidate : Row → List Row → List Row
unfolding evicted_before
insert_candidate r [] = r ∷ []
insert_candidate r (q ∷ rows) =
    let rest = insert_candidate r rows in if evicted_before q r then q ∷ rest else r ∷ q ∷ rows

-- `sort.Slice`; the names of two entries differ, so the order is total.
unfoldable pub sort_rows : List Row → List Row
unfolding insert_candidate
sort_rows [] = []
sort_rows (r ∷ rows) = insert_candidate r (sort_rows rows)

unfoldable pub is_eligible : Entry → Bool
is_eligible e = e.in_use == 0 && not e.deleting

unfoldable pub eligible_rows : List Row → List Row
unfolding is_eligible
eligible_rows [] = []
eligible_rows ((k, e) ∷ rows) =
    let rest = eligible_rows rows in if is_eligible e then (k, e) ∷ rest else rest

unfoldable pub is_idle : ℕ → ℕ → Entry → Bool
is_idle idle_ttl now e = ltb 0 idle_ttl && leb (e.last_used + idle_ttl) now

unfoldable pub is_within : CacheConfig → ℕ → ℕ → Bool
is_within cfg count bytes = leb count cfg.max_entries && not (exceeds cfg.max_bytes bytes)

unfoldable pub bytes_without : Entry → ℕ → ℕ
bytes_without e bytes = if e.size_known then sub_int64 bytes e.size_bytes else bytes

-- What the loop over the candidates chooses, with the count and the bytes that are left.
pub record Selection : Type 0 where
  pub rows : List Row
  pub count : ℕ
  pub bytes : ℕ

unfoldable pub chosen : Row → Selection → Selection
chosen r s = record s { rows = r ∷ s.rows }

unfoldable pub select_rows : CacheConfig → ℕ → ℕ → List Row → ℕ → ℕ → Selection
unfolding is_idle is_within bytes_without chosen
select_rows cfg idle_ttl now [] count bytes = record { rows = []; count = count; bytes = bytes }
select_rows cfg idle_ttl now ((k, e) ∷ rows) count bytes =
    let given_up = is_idle idle_ttl now e || not (is_within cfg count bytes) in
    let rest =
      select_rows cfg idle_ttl now rows (if given_up then count - 1 else count)
        (if given_up then bytes_without e bytes else bytes) in
    if given_up then chosen (k, e) rest else rest

unfoldable pub mark_row : Key → Option Entry → Entries → Entries
mark_row k none es = es
mark_row k (some e) es = put_entry k (record e { deleting = true }) es

unfoldable pub mark_deleting : List Row → Entries → Entries
unfolding mark_row
mark_deleting [] es = es
mark_deleting ((k, e) ∷ rows) es = mark_deleting rows (mark_row k (find_entry k es) es)

unfoldable pub row_bindings : List Row → List Binding
row_bindings [] = []
row_bindings ((k, e) ∷ rows) = record { key = k; file_id = e.file_id } ∷ row_bindings rows

unfoldable pub selection : CacheConfig → ℕ → ℕ → Cache → Selection
unfolding sort_rows eligible_rows select_rows
selection cfg idle_ttl now c =
    select_rows cfg idle_ttl now (sort_rows (eligible_rows c.entries)) (length c.entries)
      c.total_bytes

-- `selectEvictionCandidates`.
unfoldable pub select_eviction_candidates : CacheConfig → ℕ → ℕ → Cache → List Binding × Cache
unfolding selection mark_deleting row_bindings
select_eviction_candidates cfg idle_ttl now c =
    let rows = (selection cfg idle_ttl now c).rows in
    (row_bindings rows, record c { entries = mark_deleting rows c.entries })

-- The loop of `cleanup`: `deletes` tells whether the sandbox deleted the file, or did not have it.
unfoldable pub delete_candidates : (Text → Bool) → List Binding → Cache → Cache
delete_candidates deletes [] c = c
delete_candidates deletes (b ∷ bs) c =
    delete_candidates deletes bs
      (if deletes b.file_id then (remove_if_match b.key b.file_id c).1 else mark_delete_failed b c)

-- `cleanup`, with no other critical section between its own.
unfoldable pub cleanup : (Text → Bool) → CacheConfig → ℕ → ℕ → Cache → Cache
unfolding select_eviction_candidates delete_candidates
cleanup deletes cfg idle_ttl now c =
    let (bs, c') = select_eviction_candidates cfg idle_ttl now c in delete_candidates deletes bs c'

-- The loop of `invalidateMissing`: `active` tells whether the sandbox lists the file.
unfoldable pub invalidate_lost : (Text → Bool) → List Binding → Cache → Bool × Cache
invalidate_lost active [] c = (false, c)
invalidate_lost active (b ∷ bs) c =
    let (removed, c') =
      if active b.file_id then (false, c) else remove_if_match b.key b.file_id c in
    let (more, left) = invalidate_lost active bs c' in (removed || more, left)

unfoldable pub import_name : ℕ → Text → Option (Key × Option ℕ) → Cache → Cache
import_name now file_id none c = c
import_name now file_id (some (k, none)) c =
    if is_empty file_id then c else store now k file_id 0 false c
import_name now file_id (some (k, some size)) c =
    if is_empty file_id then c else store now k file_id size true c

-- The loop of `reconcile` over the file ids and the names that the sandbox lists.
unfoldable pub import_files : ℕ → List (Text × Text) → Cache → Cache
unfolding import_name
import_files now [] c = c
import_files now ((file_id, file_name) ∷ files) c =
    import_files now files (import_name now file_id (parse_testcase_cache_name file_name) c)
