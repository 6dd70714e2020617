-- ===== src/Worker/Cache/Lookup.antt =====
-- testcase_cache.go: `getOrAdd`, with no other critical section between its own, and `reconcile`, which it
-- calls first. The hash, the answers of the sandbox to FileList and FileAdd, and the end of the job's
-- context are arguments.
pub mod Laws
use go_judge_system.Prelude.{
  ℕ, ◌==◌, length, ℤ, is_positive, Text, is_empty, Bool, true, false, not, ◌&&◌, ◌||◌, Option, none,
  some, List, [], ◌∷◌, if◌then◌else◌,
}
use go_judge_system.Worker.Execution.{WorkerError, ExecutionTestCase, TestcaseDatasetIdentity}
use go_judge_system.Worker.Cache.{
  Key, Binding, Cache, CacheConfig, pin, release, reserve, release_reservation, store,
}
use go_judge_system.Worker.Cache.Names.{hex_decode, name_with_size}
use go_judge_system.Worker.Cache.Eviction.{import_files}
use go_judge_system.Worker.Sandbox.Requests.{CacheAnswer, cache_fails, cached, not_cached}

unfoldable pub is_decoded : Option Text → Bool
is_decoded none = false
is_decoded (some s) = true

-- `isSHA256Hex`.
unfoldable pub is_sha256_digest : Text → Bool
unfolding is_decoded
is_sha256_digest s = length s == 64 && is_decoded (hex_decode s)

-- What the sandbox answers: `listed` is `none` for an error, as is a file id of `added`.
pub record FileRpc : Type 0 where
  pub sha256_hex : Text → Text
  pub listed : Option (List (Text × Text))
  pub added : Text → Text → Option Text

-- The cache with the flags of `reconcile`, and its configuration.
pub record CacheState : Type 0 where
  pub cache : Cache
  pub reconcile_attempted : Bool
  pub reconciled : Bool

module _ (rpc : FileRpc) (cfg : CacheConfig) (now : ℕ) where
  -- `newTestcaseCacheKey`.
  unfoldable pub new_testcase_cache_key :
      Option TestcaseDatasetIdentity → ExecutionTestCase → Option Key
  unfolding is_sha256_digest
  new_testcase_cache_key none t = none
  new_testcase_cache_key (some d) t =
      if not (is_positive d.problem_id)
        || not (is_positive d.version)
        || not (is_sha256_digest d.dataset_checksum)
        || is_empty t.id
      then none
      else some (record {
        problem_id = d.problem_id;
        dataset_version = d.version;
        dataset_checksum = d.dataset_checksum;
        testcase_id = t.id;
        input_checksum = rpc.sha256_hex t.stdin;
      })

  unfoldable pub reconcile_with : Option (List (Text × Text)) → CacheState → CacheState
  reconcile_with none s = record s { reconcile_attempted = true }
  reconcile_with (some files) s = record {
    cache = import_files now files s.cache;
    reconcile_attempted = true;
    reconciled = true;
  }

  -- `reconcile`, which is tried once.
  unfoldable pub reconcile : CacheState → CacheState
  unfolding reconcile_with
  reconcile s = if s.reconciled || s.reconcile_attempted then s else reconcile_with rpc.listed s

  unfoldable pub store_upload : Key → ℕ → Option Text → Cache → Cache
  store_upload k size none c = c
  store_upload k size (some file_id) c =
      if is_empty file_id then c else store now k file_id size true c

  unfoldable pub admitted : Key → Text → Bool × Cache → Cache
  unfolding store_upload
  admitted k input (false, c) = c
  admitted k input (true, c) =
      release_reservation (length input)
        (store_upload k (length input) (rpc.added (name_with_size k (length input)) input) c)

  unfoldable pub populate_unpinned : Key → Text → Option Binding × Cache → Cache
  unfolding admitted
  populate_unpinned k input (some b, c) = release now (b ∷ []) c
  populate_unpinned k input (none, c) = admitted k input (reserve cfg (length input) c)

  -- The function that `loads` runs.
  unfoldable pub populate : Key → Text → Cache → Cache
  unfolding populate_unpinned
  populate k input c = populate_unpinned k input (pin now k (length input) c)

  unfoldable pub cache_answer : Option Binding × Cache → CacheAnswer × Cache
  cache_answer (some b, c) = (cached b, c)
  cache_answer (none, c) = (not_cached, c)

  unfoldable pub after_populate : Option WorkerError → Key → Text → Cache → CacheAnswer × Cache
  unfolding cache_answer
  after_populate (some ended) k input c = (cache_fails ended, c)
  after_populate none k input c = cache_answer (pin now k (length input) c)

  unfoldable pub after_pin :
      Option WorkerError → Key → Text → Option Binding × Cache → CacheAnswer × Cache
  unfolding after_populate populate
  after_pin ended k input (some b, c) = (cached b, c)
  after_pin ended k input (none, c) = after_populate ended k input (populate k input c)

  unfoldable pub with_key :
      Option WorkerError → Option Key → Text → CacheState → CacheAnswer × CacheState
  unfolding after_pin reconcile
  with_key ended none input s = (not_cached, s)
  with_key ended (some k) input s =
      let s' = reconcile s in
      let (answer, c) = after_pin ended k input (pin now k (length input) s'.cache) in
      (answer, record s' { cache = c })

  -- `getOrAdd` of an enabled cache; a failed population is an answer without a binding, as is a population
  -- after which the entry cannot be pinned.
  unfoldable pub get_or_add :
      Option WorkerError
      → Option TestcaseDatasetIdentity
      → ExecutionTestCase
      → CacheState
      → CacheAnswer × CacheState
  unfolding with_key new_testcase_cache_key
  get_or_add ended dataset t s = with_key ended (new_testcase_cache_key dataset t) t.stdin s
