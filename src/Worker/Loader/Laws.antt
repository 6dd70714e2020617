-- ===== src/Worker/Loader/Laws.antt =====
-- What a bundle that `Load` returns holds.
use go_judge_system.Prelude.{
  ℕ, ◌+◌, ltb, leb, ◌||◌, length, pos, Text, codes, text_eq, trim_space, show_int, true, if_either,
  if_cases, ◌≡◌, refl, ◌⊎◌, inl, inr, Option, none, some, List, ◌++◌,
}
use go_judge_system.Submission.Apply.{is_sha256_hex}
use go_judge_system.Worker.Execution.{
  WorkerError, Outcome, returns, fails, ProblemTestCaseMetadata, OfficialTestCaseBundle,
  ExecutionTestCase,
}
use go_judge_system.Worker.Sandbox.Verdicts.{AllNumbered}
use go_judge_system.Worker.Loader.{load_from_dir}
use go_judge_system.Worker.Loader.Archive.{
  Download, bad_request, download_fails, downloads, max_zip_bytes, cache_base_dir, LoaderPorts,
  validate_metadata, downloaded, bundle_of,
}
use go_judge_system.Worker.Loader.Load.{
  bundle_from_dir, checked_checksum, cached_checksum, verified_cached_checksum, prepare, promoted,
  staged, then_do, after_call, discarded, with_download, refresh, cached_or_fresh, usable_checksum,
  validated, load,
}
use go_judge_system.Worker.Loader.Cases.{AreCounted, with_entries-AreCounted}

-- A bundle with the count and the version of the metadata, that many testcases, all with positive indexes,
-- and a SHA-256 in hex; or an error.
abbrev pub IsComplete : ProblemTestCaseMetadata → Outcome OfficialTestCaseBundle → Type 0
IsComplete m (fails e) = Unit {0}
IsComplete m (returns b) =
    AllNumbered b.test_cases
    × ((pos (length b.test_cases) ≡ m.test_count)
        × ((b.test_count ≡ m.test_count)
            × ((b.version ≡ m.version) × (is_sha256_hex b.dataset_checksum ≡ true))))

bundle_of-IsComplete :
    (m : ProblemTestCaseMetadata) (checksum : Text) (o : Outcome (List ExecutionTestCase))
    → is_sha256_hex checksum ≡ true
    → AreCounted m.test_count o
    → IsComplete m (bundle_of m checksum o)
unfolding bundle_of
bundle_of-IsComplete m checksum (fails e) s h = tt
bundle_of-IsComplete m checksum (returns ts) s (h, l) = (h, (l, (refl, (refl, s))))

IsHash : Option Text → Type 0
IsHash none = Unit
IsHash (some s) = is_sha256_hex s ≡ true

IsHashed : Outcome Text → Type 0
IsHashed (fails e) = Unit
IsHashed (returns s) = is_sha256_hex s ≡ true

module _ {W : Type 0} (lp : LoaderPorts W)
    (hashes : (url dest : Text) (limit : ℕ) (w : W) (status size : ℕ) (checksum : Text)
      → (lp.fetch url dest limit w).0 ≡ downloads status size checksum
      → is_sha256_hex checksum ≡ true)
    (m : ProblemTestCaseMetadata) where
  bundle_from_dir-IsComplete :
      (dir checksum : Text) (w : W)
      → is_sha256_hex checksum ≡ true
      → IsComplete m (bundle_from_dir lp dir m checksum w)
  unfolding bundle_from_dir load_from_dir
  bundle_from_dir-IsComplete dir checksum w s =
      bundle_of-IsComplete m checksum _ s
        (with_entries-AreCounted (lp.disk w) dir m.test_count ((lp.disk w).read_dir dir))

  promoted-IsComplete :
      (tmp dir checksum : Text) (o : Outcome (Unit {0}) × W)
      → is_sha256_hex checksum ≡ true
      → IsComplete m (promoted lp tmp dir checksum m o).0
  unfolding promoted
  promoted-IsComplete tmp dir checksum (fails e, w) s = tt
  promoted-IsComplete tmp dir checksum (returns _, w) s =
      bundle_from_dir-IsComplete dir checksum w s

  after_call-IsComplete :
      (prefix : Text) (go_on : W → Outcome OfficialTestCaseBundle × W) (o : Option Text × W)
      → ((w : W) → IsComplete m (go_on w).0)
      → IsComplete m (after_call prefix go_on o).0
  unfolding after_call
  after_call-IsComplete prefix go_on (some e, w) h = tt
  after_call-IsComplete prefix go_on (none, w) h = h w

  discarded-IsComplete :
      (zip : Text) (o : Outcome OfficialTestCaseBundle × W)
      → IsComplete m o.0
      → IsComplete m (discarded lp zip o).0
  unfolding discarded
  discarded-IsComplete zip (o, w) h = h

  then_do-IsComplete :
      (prefix : Text) (call : W → Option Text × W) (go_on : W → Outcome OfficialTestCaseBundle × W)
      (w : W)
      → ((w : W) → IsComplete m (go_on w).0)
      → IsComplete m (then_do lp prefix call go_on w).0
  unfolding then_do
  then_do-IsComplete prefix call go_on w h = after_call-IsComplete prefix go_on (call w) h

  staged-IsComplete :
      (zip dir checksum : Text) (w : W)
      → is_sha256_hex checksum ≡ true
      → IsComplete m (staged lp zip dir checksum m w).0
  unfolding staged
  staged-IsComplete zip dir checksum w h =
      then_do-IsComplete (codes "create testcase cache temp dir: ") (lp.mkdir_all (lp.tmp_dir dir))
        _ w
        (λ w'.
          promoted-IsComplete (lp.tmp_dir dir) dir checksum
            (prepare lp zip (lp.tmp_dir dir) dir checksum m w') h)

  with_download-IsComplete :
      (zip dir : Text) (o : Outcome Text × W)
      → IsHashed o.0
      → IsComplete m (with_download lp zip dir m o).0
  unfolding with_download IsHashed
  with_download-IsComplete zip dir (fails e, w) h = tt
  with_download-IsComplete zip dir (returns checksum, w) h =
      discarded-IsComplete zip (staged lp zip dir checksum m w)
        (staged-IsComplete zip dir checksum w h)

  downloaded-IsHashed :
      (d : Download)
      → ((status size : ℕ) (checksum : Text)
          → d ≡ downloads status size checksum
          → is_sha256_hex checksum ≡ true)
      → IsHashed (downloaded d)
  unfolding downloaded IsHashed
  downloaded-IsHashed (bad_request e) h = tt
  downloaded-IsHashed (download_fails e) h = tt
  downloaded-IsHashed (downloads status size checksum) h =
      if_either (ltb status 200 || leb 300 status) IsHashed tt
        (if_either (ltb max_zip_bytes size) IsHashed tt (h status size checksum refl))

  refresh-IsComplete : (dir : Text) (w : W) → IsComplete m (refresh lp dir m w).0
  unfolding refresh
  refresh-IsComplete dir w = with_download-IsComplete (lp.zip_path m) dir _ (
      downloaded-IsHashed (lp.fetch m.zip_download_url (lp.zip_path m) (max_zip_bytes + 1) w).0
        (hashes m.zip_download_url (lp.zip_path m) (max_zip_bytes + 1) w))

  checked_checksum-IsHash :
      (checksum : Text) (o : Text ⊎ Text)
      → is_sha256_hex checksum ≡ true
      → IsHash (checked_checksum lp checksum o)
  unfolding checked_checksum IsHash
  checked_checksum-IsHash checksum (inr e) h = tt
  checked_checksum-IsHash checksum (inl actual) h = if_either (text_eq actual checksum) IsHash h tt

  cached_checksum-IsHash :
      (dir : Text) (o : Text ⊎ Text) (w : W) → IsHash (cached_checksum lp dir o w)
  unfolding cached_checksum IsHash
  cached_checksum-IsHash dir (inr e) w = tt
  cached_checksum-IsHash dir (inl bytes) w =
      if_cases (is_sha256_hex (trim_space bytes)) IsHash
        (λ h. checked_checksum-IsHash (trim_space bytes) _ h) (λ h. tt)

  usable_checksum-IsHash :
      (dir : Text) (o : Text ⊎ Text) (w : W) → IsHash (usable_checksum lp dir m o w)
  unfolding usable_checksum verified_cached_checksum IsHash
  usable_checksum-IsHash dir (inr e) w = tt
  usable_checksum-IsHash dir (inl version) w =
      if_either (text_eq (trim_space version) (show_int m.version)) IsHash
        (cached_checksum-IsHash dir _ w) tt

  cached_or_fresh-IsComplete :
      (dir : Text) (o : Option Text) (w : W)
      → IsHash o
      → IsComplete m (cached_or_fresh lp dir m o w).0
  unfolding cached_or_fresh IsHash
  cached_or_fresh-IsComplete dir none w h = refresh-IsComplete dir w
  cached_or_fresh-IsComplete dir (some checksum) w h = bundle_from_dir-IsComplete dir checksum w h

  validated-IsComplete : (o : Option WorkerError) (w : W) → IsComplete m (validated lp m o w).0
  unfolding validated
  validated-IsComplete (some e) w = tt
  validated-IsComplete none w =
      let dir = (lp.disk w).join cache_base_dir (codes "problem_" ++ show_int m.problem_id) in
      let version = (lp.disk w).read_file ((lp.disk w).join dir (codes ".version")) in
      cached_or_fresh-IsComplete dir (usable_checksum lp dir m version w) w
        (usable_checksum-IsHash dir version w)

  -- A bundle that `Load` returns, from the worker's directory or from a new archive, has the version and
  -- the count of the metadata, exactly that many testcases, all with positive indexes, and a checksum that
  -- is a SHA-256 in hex, if the hash of a download is one.
  pub load-IsComplete : (w : W) → IsComplete m (load lp m w).0
  unfolding load
  load-IsComplete w = validated-IsComplete (validate_metadata m) w
