-- ===== src/Worker/Loader.antt =====
-- workers/judge/internal/adapter/outbound/testcase/official_loader.go: the official testcases of a
-- problem, as they are read from a directory of inputs and outputs. The disk is the argument `Disk`.
pub mod Archive
pub mod Load
pub mod Cases
pub mod Laws
use go_judge_system.Prelude.{
  ℕ, suc, ◌+◌, leb, ◌==◌, length, ℤ, pos, ℤ_discrete, is_positive, Text, text_eq, codes, is_empty,
  trim_space, is_digit, is_leading, show_nat, show_int, ite, Bool, true, false, not, ◌&&◌, Option,
  none, some, List, [], ◌∷◌, ◌++◌, ◌⊎◌, inl, inr, if◌then◌else◌,
}
use go_judge_system.Worker.Execution.{
  WorkerError, Outcome, returns, fails, ProblemTestCaseMetadata, OfficialTestCaseBundle,
  ExecutionTestCase,
}
use go_judge_system.Worker.Cache.Names.{span, parse_int64}
use go_judge_system.Worker.Sandbox.Requests.{plain_error, non_retryable_error}

-- An entry of a directory.
pub record DirEntry : Type 0 where
  pub name : Text
  pub is_dir : Bool

-- What is read of the disk: a directory, a file, or the error's text, and `filepath.Join`.
pub record Disk : Type 0 where
  pub read_dir : Text → List DirEntry ⊎ Text
  pub read_file : Text → Text ⊎ Text
  pub join : Text → Text → Text

unfoldable pub drop_zeros : Text → Text
drop_zeros [] = []
drop_zeros (c ∷ s) = let rest = drop_zeros s in if c == b'0' then rest else c ∷ s

unfoldable pub extension : Text → Option Bool
extension s =
    if text_eq s (codes ".in")
    then some true
    else if text_eq s (codes ".out")
    then some false
    else none

unfoldable pub with_extension : Text → Option Bool → Option (Text × Bool)
with_extension digits none = none
with_extension digits (some is_input) = if is_leading digits then some (digits, is_input) else none

-- `testcaseFilePattern`: the digits of the index, and whether it is an input.
unfoldable pub match_file : Text → Option (Text × Bool)
unfolding drop_zeros extension with_extension
match_file name =
    let (digits, left) = span is_digit (drop_zeros name) in with_extension digits (extension left)

-- The maps from indexes to paths.
abbrev pub Paths : Type 0
Paths = List (ℕ × Text)

unfoldable pub find_path : ℕ → Paths → Option Text
find_path i [] = none
find_path i ((j, p) ∷ ps) = let rest = find_path i ps in if j == i then some p else rest

unfoldable pub put_path : ℕ → Text → Paths → Paths
put_path i p [] = (i, p) ∷ []
put_path i p ((j, q) ∷ ps) =
    let rest = put_path i p ps in if j == i then (j, p) ∷ ps else (j, q) ∷ rest

pub record Files : Type 0 where
  pub inputs : Paths
  pub outputs : Paths

unfoldable pub add_file : Bool → ℕ → Text → Files → Files
add_file true i path fs = record fs { inputs = put_path i path fs.inputs }
add_file false i path fs = record fs { outputs = put_path i path fs.outputs }

unfoldable pub bad_index : Text → WorkerError
bad_index name = non_retryable_error (codes "parse testcase index " ++ name)

unfoldable pub missing_file : Text → ℕ → WorkerError
missing_file kind i =
    non_retryable_error (codes "missing " ++ kind ++ codes " file for testcase " ++ show_nat i)

-- The first index of one map that the other does not have; Go's order of a map is not determined.
unfoldable pub unpaired : Paths → Paths → Option ℕ
unpaired [] qs = none
unpaired ((i, p) ∷ ps) qs = elim (find_path i qs) [ none ↦ some i | some q ↦ unpaired ps qs ]

unfoldable pub insert_index : ℕ → List ℕ → List ℕ
insert_index i [] = i ∷ []
insert_index i (j ∷ js) = let rest = insert_index i js in if leb i j then i ∷ j ∷ js else j ∷ rest

-- `sort.Ints` of the keys.
unfoldable pub sorted_indexes : Paths → List ℕ
unfolding insert_index
sorted_indexes [] = []
sorted_indexes ((i, p) ∷ ps) = insert_index i (sorted_indexes ps)

unfoldable pub count_mismatch : ℤ → ℕ → WorkerError
count_mismatch wanted got = non_retryable_error (
    codes "testcase count mismatch: metadata="
    ++ show_int wanted
    ++ codes " files="
    ++ show_nat got)

unfoldable pub official_case : ℕ → ℕ → Text → Text → Text → ExecutionTestCase
official_case sequence i path stdin expected = record {
  index = pos (suc sequence);
  id = show_nat i;
  kind = codes "official";
  stdin = stdin;
  sandbox_input_path = path;
  expected_output = some expected;
}

unfoldable pub path_of : ℕ → Paths → Text
path_of i ps = elim (find_path i ps) [ none ↦ [] | some p ↦ p ]

unfoldable pub read_error : Text → ℕ → Text → WorkerError
read_error kind i e =
    plain_error
      (codes "read " ++ kind ++ codes " file for testcase " ++ show_nat i ++ codes ": " ++ e)

unfoldable pub cons_case :
    ExecutionTestCase → Outcome (List ExecutionTestCase) → Outcome (List ExecutionTestCase)
cons_case t (fails e) = fails e
cons_case t (returns ts) = returns (t ∷ ts)

unfoldable pub read_case :
    ℕ
    → ℕ
    → Text
    → Text ⊎ Text
    → Text ⊎ Text
    → Outcome (List ExecutionTestCase)
    → Outcome (List ExecutionTestCase)
unfolding cons_case official_case
read_case sequence i path (inr e) output rest = fails (read_error (codes "input") i e)
read_case sequence i path (inl stdin) (inr e) rest = fails (read_error (codes "output") i e)
read_case sequence i path (inl stdin) (inl expected) rest =
    cons_case (official_case sequence i path stdin expected) rest

module _ (disk : Disk) where
  unfoldable pub indexed_file :
      Text → Text → Bool → Option ℕ → (Files → Outcome Files) → Files → Outcome Files
  indexed_file dir name is_input none go_on fs = fails (bad_index name)
  indexed_file dir name is_input (some i) go_on fs =
      go_on (add_file is_input i (disk.join dir name) fs)

  unfoldable pub matched_file :
      Text → Text → Option (Text × Bool) → (Files → Outcome Files) → Files → Outcome Files
  unfolding indexed_file
  matched_file dir name none go_on fs = go_on fs
  matched_file dir name (some (digits, is_input)) go_on fs =
      indexed_file dir name is_input (parse_int64 digits) go_on fs

  -- The loop over the entries of the directory.
  unfoldable pub scan_entries : Text → List DirEntry → Files → Outcome Files
  unfolding matched_file
  scan_entries dir [] fs = returns fs
  scan_entries dir (e ∷ es) fs =
      if e.is_dir
      then scan_entries dir es fs
      else matched_file dir e.name (match_file e.name) (scan_entries dir es) fs

  -- The loop over the sorted indexes.
  unfoldable pub read_cases : Files → ℕ → List ℕ → Outcome (List ExecutionTestCase)
  unfolding read_case path_of
  read_cases fs sequence [] = returns []
  read_cases fs sequence (i ∷ is') =
      read_case sequence i (path_of i fs.inputs) (disk.read_file (path_of i fs.inputs))
        (disk.read_file (path_of i fs.outputs)) (read_cases fs (suc sequence) is')

  unfoldable pub counted_cases : ℤ → Files → Outcome (List ExecutionTestCase)
  unfolding read_cases sorted_indexes
  counted_cases test_count fs =
      let indexes = sorted_indexes fs.inputs in
      ite (ℤ_discrete (pos (length indexes)) test_count) (read_cases fs 0 indexes)
        (fails (count_mismatch test_count (length indexes)))

  unfoldable pub paired_cases : ℤ → Files → Option ℕ → Option ℕ → Outcome (List ExecutionTestCase)
  unfolding counted_cases
  paired_cases test_count fs (some i) other = fails (missing_file (codes "output") i)
  paired_cases test_count fs none (some i) = fails (missing_file (codes "input") i)
  paired_cases test_count fs none none = counted_cases test_count fs

  unfoldable pub with_files : ℤ → Outcome Files → Outcome (List ExecutionTestCase)
  unfolding paired_cases unpaired
  with_files test_count (fails e) = fails e
  with_files test_count (returns fs) =
      paired_cases test_count fs (unpaired fs.inputs fs.outputs) (unpaired fs.outputs fs.inputs)

  unfoldable pub with_entries : Text → ℤ → List DirEntry ⊎ Text → Outcome (List ExecutionTestCase)
  unfolding with_files scan_entries
  with_entries dir test_count (inr e) = fails (plain_error (codes "read testcase dir: " ++ e))
  with_entries dir test_count (inl es) =
      with_files test_count (scan_entries dir es (record { inputs = []; outputs = [] }))

  -- `loadFromDir`.
  unfoldable pub load_from_dir : Text → ℤ → Outcome (List ExecutionTestCase)
  unfolding with_entries
  load_from_dir dir test_count = with_entries dir test_count (disk.read_dir dir)
