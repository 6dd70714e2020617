-- ===== src/Worker/Loader/Load.antt =====
-- official_loader.go: `Load`, which takes the testcases from the worker's cache directory, or fetches the
-- archive first. Every call that changes the disk takes the world `W` and returns the next one, with the
-- text of its error.
use go_judge_system.Prelude.{
  ◌+◌, Text, text_eq, codes, trim_space, show_int, Option, none, some, List, ◌++◌, ◌⊎◌, inl, inr,
  if◌then◌else◌,
}
use go_judge_system.Submission.Apply.{is_sha256_hex}
use go_judge_system.Worker.Execution.{
  WorkerError, Outcome, returns, fails, ProblemTestCaseMetadata, OfficialTestCaseBundle,
  ExecutionTestCase,
}
use go_judge_system.Worker.Sandbox.Requests.{plain_error, non_retryable_error}
use go_judge_system.Worker.Loader.{load_from_dir}
use go_judge_system.Worker.Loader.Archive.{
  LoaderPorts, max_zip_bytes, cache_base_dir, validate_metadata, wrapped, downloaded, bundle_of,
  extract_zip,
}

module _ {W : Type 0} where
  unfoldable pub after_call :
      {A : Type 0} → Text → (W → Outcome A × W) → Option Text × W → Outcome A × W
  after_call prefix go_on (some e, w) = (fails (plain_error (prefix ++ e)), w)
  after_call prefix go_on (none, w) = go_on w

  -- An archive that cannot be extracted is no reason to try again.
  unfoldable pub extract_outcome :
      {A : Type 0} → Option Text × W → (W → Outcome A × W) → Outcome A × W
  extract_outcome (some e, w) go_on =
      (fails (non_retryable_error (codes "extract testcase bundle: " ++ e)), w)
  extract_outcome (none, w) go_on = go_on w

  unfoldable pub tested :
      {A : Type 0} → Outcome (List ExecutionTestCase) → (W → Outcome A × W) → W → Outcome A × W
  tested (fails e) go_on w = (fails e, w)
  tested (returns ts) go_on w = go_on w

module _ {W : Type 0} (lp : LoaderPorts W) where
  -- `bundleFromDir`.
  unfoldable pub bundle_from_dir :
      Text → ProblemTestCaseMetadata → Text → W → Outcome OfficialTestCaseBundle
  unfolding bundle_of
  bundle_from_dir dir m checksum w =
      bundle_of m checksum (load_from_dir (lp.disk w) dir m.test_count)

  unfoldable pub checked_checksum : Text → Text ⊎ Text → Option Text
  checked_checksum checksum (inr e) = none
  checked_checksum checksum (inl actual) = if text_eq actual checksum then some checksum else none

  unfoldable pub cached_checksum : Text → Text ⊎ Text → W → Option Text
  unfolding checked_checksum
  cached_checksum dir (inr e) w = none
  cached_checksum dir (inl bytes) w =
      let checksum = trim_space bytes in
      if is_sha256_hex checksum
      then checked_checksum checksum (lp.sha256_file ((lp.disk w).join dir (codes "bundle.zip")) w)
      else none

  -- `verifiedCachedChecksum`.
  unfoldable pub verified_cached_checksum : Text → W → Option Text
  unfolding cached_checksum
  verified_cached_checksum dir w =
      cached_checksum dir ((lp.disk w).read_file ((lp.disk w).join dir (codes ".sha256"))) w

  -- A call that changes the disk, and what follows where it has no error.
  unfoldable pub then_do :
      {A : Type 0} → Text → (W → Option Text × W) → (W → Outcome A × W) → W → Outcome A × W
  unfolding after_call
  then_do prefix call go_on w = after_call prefix go_on (call w)

  -- What is done in the temporary directory, up to its promotion to the cache directory.
  unfoldable pub prepare :
      Text → Text → Text → Text → ProblemTestCaseMetadata → W → Outcome (Unit {0}) × W
  unfolding then_do extract_outcome tested
  prepare zip tmp dir checksum m w =
      let path : Text → Text = (lp.disk w).join tmp in
      extract_outcome (extract_zip lp zip tmp w) (λ w.
        tested (load_from_dir (lp.disk w) tmp m.test_count)
          (then_do (codes "write testcase cache zip: ")
            (lp.copy_file zip (path (codes "bundle.zip")))
            (then_do (codes "write testcase cache version: ")
              (lp.write_file (path (codes ".version")) (show_int m.version))
              (then_do (codes "write testcase cache checksum: ")
                (lp.write_file (path (codes ".sha256")) checksum)
                (then_do (codes "create testcase cache base dir: ") (lp.mkdir_all cache_base_dir) (
                  then_do (codes "remove stale testcase cache: ") (lp.remove_all dir) (
                    then_do (codes "promote testcase cache: ") (lp.rename tmp dir)
                      (λ w. (returns tt, w))))))))
          w)

  -- The deferred removal of the temporary directory, unless it was promoted, and the bundle.
  unfoldable pub promoted :
      Text
      → Text
      → Text
      → ProblemTestCaseMetadata
      → Outcome (Unit {0}) × W
      → Outcome OfficialTestCaseBundle × W
  promoted tmp dir checksum m (fails e, w) = (fails e, (lp.remove_all tmp w).1)
  promoted tmp dir checksum m (returns _, w) = (bundle_from_dir dir m checksum w, w)

  unfoldable pub staged :
      Text → Text → Text → ProblemTestCaseMetadata → W → Outcome OfficialTestCaseBundle × W
  unfolding promoted prepare
  staged zip dir checksum m =
      then_do (codes "create testcase cache temp dir: ") (lp.mkdir_all (lp.tmp_dir dir)) (λ w.
        promoted (lp.tmp_dir dir) dir checksum m (prepare zip (lp.tmp_dir dir) dir checksum m w))

  -- The deferred removal of the archive.
  unfoldable pub discarded : {A : Type 0} → Text → Outcome A × W → Outcome A × W
  discarded zip (o, w) = (o, (lp.remove zip w).1)

  unfoldable pub with_download :
      Text → Text → ProblemTestCaseMetadata → Outcome Text × W → Outcome OfficialTestCaseBundle × W
  unfolding wrapped discarded staged
  with_download zip dir m (fails e, w) = (fails (wrapped (codes "download testcase bundle: ") e), w)
  with_download zip dir m (returns checksum, w) = discarded zip (staged zip dir checksum m w)

  unfoldable pub refresh : Text → ProblemTestCaseMetadata → W → Outcome OfficialTestCaseBundle × W
  unfolding with_download
  refresh dir m w =
      let zip = lp.zip_path m in
      let (d, w') = lp.fetch m.zip_download_url zip (max_zip_bytes + 1) w in
      with_download zip dir m (downloaded d, w')

  -- The testcases are cached, with the checksum of their archive, or they are fetched.
  unfoldable pub cached_or_fresh :
      Text → ProblemTestCaseMetadata → Option Text → W → Outcome OfficialTestCaseBundle × W
  unfolding refresh
  cached_or_fresh dir m none w = refresh dir m w
  cached_or_fresh dir m (some checksum) w = (bundle_from_dir dir m checksum w, w)

  unfoldable pub usable_checksum : Text → ProblemTestCaseMetadata → Text ⊎ Text → W → Option Text
  unfolding verified_cached_checksum
  usable_checksum dir m (inr e) w = none
  usable_checksum dir m (inl version) w =
      if text_eq (trim_space version) (show_int m.version)
      then verified_cached_checksum dir w
      else none

  unfoldable pub validated :
      ProblemTestCaseMetadata → Option WorkerError → W → Outcome OfficialTestCaseBundle × W
  unfolding cached_or_fresh usable_checksum
  validated m (some e) w = (fails e, w)
  validated m none w =
      let dir = (lp.disk w).join cache_base_dir (codes "problem_" ++ show_int m.problem_id) in
      cached_or_fresh dir m
        (usable_checksum dir m ((lp.disk w).read_file ((lp.disk w).join dir (codes ".version"))) w)
        w

  -- `Load`.
  unfoldable pub load : ProblemTestCaseMetadata → W → Outcome OfficialTestCaseBundle × W
  unfolding validated validate_metadata
  load m w = validated m (validate_metadata m) w
