-- ===== src/Worker/Loader/Archive.antt =====
-- official_loader.go: the calls of the loader, the download of an archive and its extraction.
use go_judge_system.Prelude.{
  ℕ, ltb, leb, is_positive, Text, text_eq, codes, is_empty, trim_space, show_nat, add_int64,
  exceeds, Bool, true, false, not, ◌||◌, Option, none, some, List, [], ◌∷◌, ◌++◌, ◌⊎◌, inl, inr,
  if◌then◌else◌,
}
use go_judge_system.Worker.Execution.{
  WorkerError, Outcome, returns, fails, ProblemTestCaseMetadata, OfficialTestCaseBundle,
  ExecutionTestCase,
}
use go_judge_system.Worker.Diagnostics.{starts_with}
use go_judge_system.Worker.Sandbox.Requests.{plain_error, non_retryable_error}
use go_judge_system.Worker.Loader.{Disk, match_file}

-- An entry of an archive; the size is of type uint64.
pub record ZipEntry : Type 0 where
  pub name : Text
  pub is_dir : Bool
  pub is_symlink : Bool
  pub uncompressed_size : ℕ

-- The stage at which the extraction of an entry fails, with the error's text.
pub data EntryError : Type 0 where
  not_opened not_created not_copied : Text → EntryError

-- What `http.Client.Do` and the copy of the body bring: an error, or a status, the number of the bytes
-- that were copied, and the hash of the body.
pub data Download : Type 0 where
  bad_request : Text → Download
  download_fails : Text → Download
  downloads : ℕ → ℕ → Text → Download

-- What becomes of an entry: nothing, an error, or a file with the bytes that are extracted then.
pub data EntryStep : Type 0 where
  skips : EntryStep
  refuses : Text → EntryStep
  writes : Text → ℕ → EntryStep

pub record LoaderPorts (W : Type 0) : Type 0 where
  pub disk : W → Disk
  pub sha256_file : Text → W → Text ⊎ Text
  pub fetch : Text → Text → ℕ → W → Download × W
  pub open_zip : Text → W → List ZipEntry ⊎ Text
  pub write_entry : Text → ZipEntry → W → Option EntryError × W
  pub mkdir_all : Text → W → Option Text × W
  pub copy_file : Text → Text → W → Option Text × W
  pub write_file : Text → Text → W → Option Text × W
  pub remove_all : Text → W → Option Text × W
  pub remove : Text → W → Option Text × W
  pub rename : Text → Text → W → Option Text × W
  pub clean : Text → Text
  pub is_abs : Text → Bool
  pub base : Text → Text
  pub zip_path : ProblemTestCaseMetadata → Text
  pub tmp_dir : Text → Text

abbrev pub max_zip_bytes : ℕ
max_zip_bytes = 67108864

abbrev pub max_extracted_bytes : ℕ
max_extracted_bytes = 134217728

abbrev pub cache_base_dir : Text
cache_base_dir = codes "/cache/testcases"

-- `validateMetadata`.
unfoldable pub validate_metadata : ProblemTestCaseMetadata → Option WorkerError
validate_metadata m =
    if not (is_positive m.problem_id)
    then some (non_retryable_error (codes "problem_id must be greater than zero"))
    else if is_empty (trim_space m.zip_download_url)
    then some (non_retryable_error (codes "zip_download_url is required"))
    else if not (is_positive m.test_count)
    then some (non_retryable_error (codes "test_count must be greater than zero"))
    else if not (is_positive m.version)
    then some (non_retryable_error (codes "version must be greater than zero"))
    else none

unfoldable pub is_none : Option (Text × Bool) → Bool
is_none none = true
is_none (some m) = false

-- `fmt.Errorf` with `%w`, which keeps what `IsNonRetryable` says.
unfoldable pub wrapped : Text → WorkerError → WorkerError
wrapped prefix e = record e { message = prefix ++ e.message }

unfoldable pub entry_error : Text → Text → EntryError → Text
entry_error name path (not_opened e) = codes "open zip entry " ++ name ++ codes ": " ++ e
entry_error name path (not_created e) = codes "create file " ++ path ++ codes ": " ++ e
entry_error name path (not_copied e) = codes "extract " ++ name ++ codes ": " ++ e

-- What `downloadToFile` returns.
unfoldable pub downloaded : Download → Outcome Text
downloaded (bad_request e) =
    fails (non_retryable_error (codes "build testcase download request: " ++ e))
downloaded (download_fails e) = fails (plain_error e)
downloaded (downloads status size checksum) =
    if ltb status 200 || leb 300 status
    then fails (plain_error (codes "testcase download returned status " ++ show_nat status))
    else if ltb max_zip_bytes size
    then fails (
        non_retryable_error
          (codes "testcase zip exceeds " ++ show_nat max_zip_bytes ++ codes " bytes"))
    else returns checksum

unfoldable pub bundle_of :
    ProblemTestCaseMetadata
    → Text
    → Outcome (List ExecutionTestCase)
    → Outcome OfficialTestCaseBundle
bundle_of m checksum (fails e) = fails e
bundle_of m checksum (returns ts) = returns (record {
  test_cases = ts;
  test_count = m.test_count;
  version = m.version;
  dataset_checksum = checksum;
})

module _ {W : Type 0} (lp : LoaderPorts W) where
  unfoldable pub escapes : Text → Bool
  escapes name = lp.is_abs name || starts_with (codes "../") name || text_eq name (codes "..")

  unfoldable pub after_entry :
      (W → Option Text × W) → Text → Text → Option EntryError × W → Option Text × W
  after_entry go_on name path (some e, w) = (some (entry_error name path e), w)
  after_entry go_on name path (none, w) = go_on w

  -- What is done with an entry.
  unfoldable pub entry_step : Text → ZipEntry → ℕ → W → EntryStep
  unfolding add_int64 exceeds escapes
  entry_step dest e extracted w =
      let name = lp.clean e.name in
      let total = add_int64 extracted e.uncompressed_size in
      if e.is_dir
      then skips
      else if e.is_symlink
      then refuses (codes "zip entry " ++ e.name ++ codes " is a symlink")
      else if escapes name
      then refuses (codes "zip entry " ++ e.name ++ codes " escapes destination")
      else if is_none (match_file (lp.base name))
      then skips
      else if exceeds max_extracted_bytes total
      then refuses (
          codes "testcase bundle exceeds "
          ++ show_nat max_extracted_bytes
          ++ codes " extracted bytes")
      else writes ((lp.disk w).join dest (lp.base name)) total

  unfoldable pub take_step :
      (ℕ → W → Option Text × W) → ZipEntry → ℕ → W → EntryStep → Option Text × W
  unfolding after_entry
  take_step go_on e extracted w skips = go_on extracted w
  take_step go_on e extracted w (refuses t) = (some t, w)
  take_step go_on e extracted w (writes path total) =
      after_entry (go_on total) e.name path (lp.write_entry path e w)

  -- The loop of `extractZip`; `none` is the end without an error.
  unfoldable pub extract_entries : Text → List ZipEntry → ℕ → W → Option Text × W
  unfolding entry_step take_step
  extract_entries dest [] extracted w = (none, w)
  extract_entries dest (e ∷ es) extracted w =
      take_step (extract_entries dest es) e extracted w (entry_step dest e extracted w)

  unfoldable pub extract_opened : Text → List ZipEntry ⊎ Text → W → Option Text × W
  unfolding extract_entries
  extract_opened dest (inr e) w = (some (codes "open zip: " ++ e), w)
  extract_opened dest (inl es) w = extract_entries dest es 0 w

  -- `extractZip`.
  unfoldable pub extract_zip : Text → Text → W → Option Text × W
  unfolding extract_opened
  extract_zip zip dest w = extract_opened dest (lp.open_zip zip w) w
