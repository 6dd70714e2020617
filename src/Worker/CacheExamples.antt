-- ===== src/Worker/CacheExamples.antt =====
-- The names of cached files and the housekeeping of the cache at concrete inputs.
use go_judge_system.Prelude.{
  pos, ℤ_discrete, text_dec, none, false, arith, Text, codes, is_empty, replicate, is_digit, true,
  ◌≡◌, refl, ◌<◌, some, [], ◌∷◌,
}
use go_judge_system.Worker.Cache.{
  Key, Cache, CacheConfig, empty_cache, store, find_entry, put_entry, same_key,
}
use go_judge_system.Worker.Cache.Accounting.{
  IsAccounted, store-IsAccounted, empty_cache-IsAccounted,
}
use go_judge_system.Worker.Execution.{ExecutionTestCase, TestcaseDatasetIdentity}
use go_judge_system.Worker.Cache.Lookup.{FileRpc, CacheState}
use go_judge_system.Worker.Cache.Names.{parse_testcase_cache_name, is_lower_hex}
use go_judge_system.Worker.Cache.Names.RoundTrip.{
  cache_key, sized_name, parse_testcase_cache_name-sized_name,
}
use go_judge_system.Worker.Cache.Names.Fields.{all_pass}
use go_judge_system.Worker.Cache.Eviction.{selection, cleanup, invalidate_lost, import_files}
use go_judge_system.Worker.Cache.Weights.{weigh, known_size}
use go_judge_system.Worker.Cache.Eviction.Choice.{LeavesEnough, selection_enough}
use go_judge_system.Worker.Cache.Eviction.Laws.{housekeeping-IsAccounted}

abbrev key : Key
key = cache_key 7 1 (codes "d") (codes "t1") (codes "i")

abbrev digest : Text
digest = replicate 64 b'a'

digest_passes : all_pass is_lower_hex digest ≡ true
unfolding all_pass is_lower_hex is_digit
digest_passes = refl

parse_testcase_cache_name-sized_name_example :
    parse_testcase_cache_name (sized_name (cache_key 12 3 digest (codes "t-1") digest) (some 40))
    ≡ some (cache_key 12 3 digest (codes "t-1") digest, some 40)
parse_testcase_cache_name-sized_name_example =
    parse_testcase_cache_name-sized_name 12 3 digest (codes "t-1") digest (some 40)
      (omega arith, omega arith) (omega arith, omega arith) (refl, digest_passes)
      (refl, digest_passes) (refl, (omega arith, (omega arith, (omega arith, tt)))) (omega arith)

abbrev small_cache : CacheConfig
small_cache = record { max_bytes = 100; max_entries = 1 }

abbrev two_files : Cache
two_files =
    store 2 (cache_key 7 1 digest (codes "t2") digest) (codes "f2") 9 true
      (store 1 (cache_key 7 1 digest (codes "t1") digest) (codes "f1") 9 true empty_cache)

two_files-IsAccounted : IsAccounted two_files
two_files-IsAccounted =
    store-IsAccounted 2 _ (codes "f2") 9 true _
      (store-IsAccounted 1 _ (codes "f1") 9 true empty_cache empty_cache-IsAccounted)

two_files_small : weigh known_size two_files.entries < 9223372036854775808
unfolding weigh known_size store find_entry put_entry same_key ℤ_discrete text_dec
two_files_small = omega arith

selection_enough_example :
    LeavesEnough small_cache 0 5 two_files (selection small_cache 0 5 two_files).rows
selection_enough_example =
    selection_enough small_cache 0 5 two_files two_files-IsAccounted two_files_small

housekeeping-IsAccounted_example :
    IsAccounted (cleanup is_empty small_cache 0 5 two_files)
    × (IsAccounted
          (invalidate_lost is_empty (record { key = key; file_id = codes "f1" } ∷ []) two_files).1
        × IsAccounted (import_files 5 ((codes "f3", codes "other") ∷ []) two_files))
housekeeping-IsAccounted_example =
    housekeeping-IsAccounted is_empty is_empty small_cache 0 5
      (record { key = key; file_id = codes "f1" } ∷ []) ((codes "f3", codes "other") ∷ []) two_files
      two_files-IsAccounted

abbrev file_rpc : FileRpc
file_rpc = record {
  sha256_hex = λ s. digest;
  listed = some [];
  added = λ file_name content. some (codes "f9");
}

abbrev dataset : TestcaseDatasetIdentity
dataset = record { problem_id = pos 7; version = pos 1; dataset_checksum = digest }

abbrev testcase : ExecutionTestCase
testcase = record {
  index = pos 1;
  id = codes "t9";
  kind = codes "official";
  stdin = codes "4";
  sandbox_input_path = [];
  expected_output = none;
}

abbrev fresh_state : CacheState
fresh_state = record { cache = empty_cache; reconcile_attempted = false; reconciled = false }
