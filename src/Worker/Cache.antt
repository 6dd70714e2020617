-- ===== src/Worker/Cache.antt =====
-- workers/judge/internal/adapter/outbound/execute/testcase_cache.go: the accounting of the testcase
-- inputs that are kept in the sandbox. Each function is one critical section under `c.mu`.
pub mod Weights
pub mod Accounting
pub mod Limits
pub mod Uploads
pub mod Names
pub mod Eviction
pub mod Lookup
use go_judge_system.Prelude.{
  ℕ, suc, ◌+◌, ◌-◌, ltb, leb, ◌==◌, add_int64, sub_int64, is_negative_int64, exceeds, ℤ, ℤ_discrete,
  Text, text_dec, text_eq, length, ite, Bool, true, false, not, ◌&&◌, ◌||◌, Option, none, some,
  List, [], ◌∷◌, if◌then◌else◌,
}

-- `testcaseCacheKey`.
pub record Key : Type 0 where
  pub problem_id : ℤ
  pub dataset_version : ℤ
  pub dataset_checksum : Text
  pub testcase_id : Text
  pub input_checksum : Text

-- `==` on keys.
unfoldable pub same_key : Key → Key → Bool
same_key a b =
    ite (ℤ_discrete a.problem_id b.problem_id)
      (ite (ℤ_discrete a.dataset_version b.dataset_version)
        (ite (text_dec a.dataset_checksum b.dataset_checksum)
          (ite (text_dec a.testcase_id b.testcase_id) (text_eq a.input_checksum b.input_checksum)
            false)
          false)
        false)
      false

-- `testcaseCacheEntry`; times are numbers.
pub record Entry : Type 0 where
  pub file_id : Text
  pub size_bytes : ℕ
  pub size_known : Bool
  pub created_at : ℕ
  pub last_used : ℕ
  pub in_use : ℕ
  pub deleting : Bool

pub record Binding : Type 0 where
  pub key : Key
  pub file_id : Text

-- The Go map, with one row per key.
abbrev pub Entries : Type 0
Entries = List (Key × Entry)

unfoldable pub find_entry : Key → Entries → Option Entry
find_entry k [] = none
find_entry k ((j, e) ∷ es) = let rest = find_entry k es in if same_key j k then some e else rest

-- An assignment to `c.entries[key]`.
unfoldable pub put_entry : Key → Entry → Entries → Entries
put_entry k v [] = (k, v) ∷ []
put_entry k v ((j, e) ∷ es) =
    let rest = put_entry k v es in if same_key j k then (j, v) ∷ es else (j, e) ∷ rest

unfoldable pub delete_entry : Key → Entries → Entries
delete_entry k [] = []
delete_entry k ((j, e) ∷ es) =
    let rest = delete_entry k es in if same_key j k then es else (j, e) ∷ rest

-- The accounting fields of `sandboxTestcaseCache` and the limits of its configuration. The sums of
-- bytes are of type int64, and stand here as their 64 bits.
pub record Cache : Type 0 where
  pub entries : Entries
  pub total_bytes : ℕ
  pub unknown_entries : ℕ
  pub reserved_bytes : ℕ
  pub reserved_entries : ℕ

pub record CacheConfig : Type 0 where
  pub max_bytes : ℕ
  pub max_entries : ℕ

abbrev pub empty_cache : Cache
empty_cache = record {
  entries = [];
  total_bytes = 0;
  unknown_entries = 0;
  reserved_bytes = 0;
  reserved_entries = 0;
}

-- `reserve`; the size of an input is never negative.
unfoldable pub reserve : CacheConfig → ℕ → Cache → Bool × Cache
reserve cfg size c =
    if ltb cfg.max_bytes size
    then (false, c)
    else if ltb 0 c.unknown_entries
        || leb cfg.max_entries (length c.entries + c.reserved_entries)
        || exceeds cfg.max_bytes (add_int64 (add_int64 c.total_bytes c.reserved_bytes) size)
    then (false, c)
    else (
      true,
      record c {
        reserved_bytes = add_int64 c.reserved_bytes size;
        reserved_entries = suc c.reserved_entries;
      },
    )

-- `releaseReservation`: where a difference is negative, both are set to 0.
unfoldable pub release_reservation : ℕ → Cache → Cache
release_reservation size c =
    if is_negative_int64 (sub_int64 c.reserved_bytes size) || ltb c.reserved_entries 1
    then record c { reserved_bytes = 0; reserved_entries = 0 }
    else record c {
      reserved_bytes = sub_int64 c.reserved_bytes size;
      reserved_entries = c.reserved_entries - 1;
    }

-- The size of an unsized entry becomes known.
unfoldable pub learn_size : Key → ℕ → Entry → Cache → Cache
learn_size k size e c = record c {
  entries = put_entry k (record e { size_known = true; size_bytes = size }) c.entries;
  total_bytes = add_int64 c.total_bytes size;
  unknown_entries = c.unknown_entries - 1;
}

-- The entry and the cache once the size is known; the test is `entry.sizeKnown`.
unfoldable pub with_size : Bool → Key → ℕ → Entry → Cache → Entry × Cache
unfolding learn_size
with_size true k size e c = (e, c)
with_size false k size e c =
    (record e { size_known = true; size_bytes = size }, learn_size k size e c)

unfoldable pub pin_live : ℕ → Key → ℕ → Entry → Cache → Option Binding × Cache
unfolding with_size
pin_live now k size e c =
    let (e', c') = with_size e.size_known k size e c in
    let pinned = record e' { last_used = now; in_use = suc e'.in_use } in
    (
      some (record { key = k; file_id = e.file_id }),
      record c' { entries = put_entry k pinned c'.entries },
    )

unfoldable pub pin_entry : ℕ → Key → ℕ → Option Entry → Cache → Option Binding × Cache
unfolding pin_live
pin_entry now k size none c = (none, c)
pin_entry now k size (some e) c = if e.deleting then (none, c) else pin_live now k size e c

-- `pin`.
unfoldable pub pin : ℕ → Key → ℕ → Cache → Option Binding × Cache
unfolding pin_entry
pin now k size c = pin_entry now k size (find_entry k c.entries) c

unfoldable pub release_entry : ℕ → Binding → Option Entry → Cache → Cache
release_entry now b none c = c
release_entry now b (some e) c =
    if not (text_eq e.file_id b.file_id) || e.in_use == 0 then c else record c {
      entries = put_entry b.key (record e { in_use = e.in_use - 1; last_used = now }) c.entries;
    }

-- The loop of `release`.
unfoldable pub release : ℕ → List Binding → Cache → Cache
unfolding release_entry
release now [] c = c
release now (b ∷ bs) c = release now bs (release_entry now b (find_entry b.key c.entries) c)

unfoldable pub uncount : Bool → ℕ → Cache → Cache
uncount true size c = record c { total_bytes = sub_int64 c.total_bytes size }
uncount false size c = record c { unknown_entries = c.unknown_entries - 1 }

-- `removeAccounting`.
unfoldable pub remove_accounting : Entry → Cache → Cache
unfolding uncount
remove_accounting e c = uncount e.size_known e.size_bytes c

unfoldable pub new_entry : ℕ → Text → ℕ → Bool → Entry
new_entry now file_id size known = record {
  file_id = file_id;
  size_bytes = size;
  size_known = known;
  created_at = now;
  last_used = now;
  in_use = 0;
  deleting = false;
}

unfoldable pub count_in : Bool → ℕ → Cache → Cache
count_in true size c = record c { total_bytes = add_int64 c.total_bytes size }
count_in false size c = record c { unknown_entries = suc c.unknown_entries }

-- The end of `store`.
unfoldable pub insert_entry : ℕ → Key → Text → ℕ → Bool → Cache → Cache
unfolding count_in new_entry
insert_entry now k file_id size known c =
    count_in known size
      (record c { entries = put_entry k (new_entry now file_id size known) c.entries })

unfoldable pub store_over : ℕ → Key → Text → ℕ → Bool → Option Entry → Cache → Cache
unfolding insert_entry
store_over now k file_id size known none c = insert_entry now k file_id size known c
store_over now k file_id size known (some e) c =
    if text_eq e.file_id file_id
    then if not e.size_known && known then learn_size k size e c else c
    else insert_entry now k file_id size known (remove_accounting e c)

-- `store`.
unfoldable pub store : ℕ → Key → Text → ℕ → Bool → Cache → Cache
unfolding store_over
store now k file_id size known c = store_over now k file_id size known (find_entry k c.entries) c

unfoldable pub remove_entry : Key → Text → Option Entry → Cache → Bool × Cache
remove_entry k file_id none c = (false, c)
remove_entry k file_id (some e) c =
    if not (text_eq e.file_id file_id)
    then (false, c)
    else let c' = remove_accounting e c in (true, record c' { entries = delete_entry k c'.entries })

-- `removeIfMatch`.
unfoldable pub remove_if_match : Key → Text → Cache → Bool × Cache
unfolding remove_entry
remove_if_match k file_id c = remove_entry k file_id (find_entry k c.entries) c

unfoldable pub delete_failed_entry : Binding → Option Entry → Cache → Cache
delete_failed_entry b none c = c
delete_failed_entry b (some e) c =
    if text_eq e.file_id b.file_id
    then record c { entries = put_entry b.key (record e { deleting = false }) c.entries }
    else c

-- `markDeleteFailed`.
unfoldable pub mark_delete_failed : Binding → Cache → Cache
unfolding delete_failed_entry
mark_delete_failed b c = delete_failed_entry b (find_entry b.key c.entries) c

-- `lookup`.
unfoldable pub lookup_entry : Option Entry → Option Text
lookup_entry none = none
lookup_entry (some e) = if e.deleting then none else some e.file_id

unfoldable pub lookup : Key → Cache → Option Text
unfolding lookup_entry
lookup k c = lookup_entry (find_entry k c.entries)
