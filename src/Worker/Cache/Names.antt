-- ===== src/Worker/Cache/Names.antt =====
-- testcase_cache.go: the names under which the inputs are kept in the sandbox, and how a name is read
-- back after a restart of the worker. The regular expression is written out as a parser: none of its
-- character classes has the hyphen that ends each of its fields.
pub mod Fields
pub mod RoundTrip
use go_judge_system.Prelude.{
  ℕ, suc, ◌+◌, ◌-◌, ◌*◌, ◌/◌, ◌%◌, leb, ltb, ◌==◌, length, ℤ, pos, Text, codes, show_nat, show_int,
  parse_digits, is_digit, is_leading, is_positive, Bool, true, false, not, ◌&&◌, ◌||◌, Option, none,
  some, List, [], ◌∷◌, ◌++◌, if◌then◌else◌, is_empty, ◌>>=◌,
}
use go_judge_system.Worker.Cache.{Key}

-- A hexadecimal digit in lower case.
unfoldable pub hex_digit : ℕ → ℕ
hex_digit d = if ltb d 10 then b'0' + d else b'a' + (d - 10)

-- `hex.EncodeToString`.
unfoldable pub hex_encode : Text → Text
unfolding hex_digit
hex_encode [] = []
hex_encode (c ∷ s) = hex_digit (c / 16) ∷ hex_digit (c % 16) ∷ hex_encode s

unfoldable pub name_head : Key → Text
unfolding hex_encode
name_head k =
    show_int k.problem_id
    ++ (codes "-v"
        ++ (show_int k.dataset_version
            ++ (codes "-d"
                ++ (k.dataset_checksum
                    ++ (codes "-t"
                        ++ (hex_encode k.testcase_id ++ (codes "-i" ++ k.input_checksum)))))))

-- `name`.
unfoldable pub name : Key → Text
unfolding name_head
name k = codes "astracode-tc-v1-p" ++ name_head k

-- `nameWithSize`.
unfoldable pub name_with_size : Key → ℕ → Text
name_with_size k size = name k ++ codes "-s" ++ show_nat size

unfoldable pub is_lower_hex : ℕ → Bool
is_lower_hex c = is_digit c || (leb b'a' c && leb c b'f')

-- The longest part at the front whose characters pass the test, and what is left.
unfoldable pub span : (ℕ → Bool) → Text → Text × Text
span p [] = ([], [])
span p (c ∷ s) = let (taken, left) = span p s in if p c then (c ∷ taken, left) else ([], c ∷ s)

unfoldable pub strip_prefix : Text → Text → Option Text
strip_prefix [] s = some s
strip_prefix (c ∷ p) [] = none
strip_prefix (c ∷ p) (d ∷ s) = let rest = strip_prefix p s in if c == d then rest else none

-- A field that begins with a literal: its text, and what is left.
unfoldable pub field : Text → (ℕ → Bool) → Text → Option (Text × Text)
unfolding span strip_prefix
field literal p s = strip_prefix literal s >>= λ t. some (span p t)

unfoldable pub guard_text : Bool → Text → Option Text
guard_text b s = if b then some s else none

-- The groups of the regular expression; the last one may be missing.
pub record Groups : Type 0 where
  pub problem_id : Text
  pub version : Text
  pub checksum : Text
  pub testcase : Text
  pub input : Text
  pub size : Option Text

unfoldable pub size_group : Text → Option (Option Text)
unfolding field guard_text
size_group [] = some none
size_group (c ∷ s) = do
  (digits, left) ← field (codes "-s") is_digit (c ∷ s)
  size ← guard_text (not (is_empty digits) && is_empty left) digits
  some (some size)

-- `testcaseCacheNamePattern`.
unfoldable pub match_name : Text → Option Groups
unfolding field guard_text size_group
match_name name = do
  (problem, s) ← field (codes "astracode-tc-v1-p") is_digit name
  problem_id ← guard_text (is_leading problem) problem
  (ver, s) ← field (codes "-v") is_digit s
  version ← guard_text (is_leading ver) ver
  (sum, s) ← field (codes "-d") is_lower_hex s
  checksum ← guard_text (length sum == 64) sum
  (id, s) ← field (codes "-t") is_lower_hex s
  testcase ← guard_text (not (is_empty id)) id
  (hash, s) ← field (codes "-i") is_lower_hex s
  input ← guard_text (length hash == 64) hash
  size ← size_group s
  some (record {
    problem_id = problem_id;
    version = version;
    checksum = checksum;
    testcase = testcase;
    input = input;
    size = size;
  })

unfoldable pub in_int64 : ℕ → Option ℕ
in_int64 n = if ltb n 9223372036854775808 then some n else none

-- `strconv.ParseInt` of a text of digits.
unfoldable pub parse_int64 : Text → Option ℕ
unfolding in_int64
parse_int64 s = parse_digits s >>= in_int64

unfoldable pub hex_value : ℕ → Option ℕ
hex_value c =
    if is_digit c
    then some (c - b'0')
    else if leb b'a' c && leb c b'f'
    then some (c - b'a' + 10)
    else none

-- `hex.DecodeString` of digits in lower case.
unfoldable pub hex_decode : Text → Option Text
unfolding hex_value
hex_decode [] = some []
hex_decode (c ∷ []) = none
hex_decode (c ∷ d ∷ s) = do
  high ← hex_value c
  low ← hex_value d
  rest ← hex_decode s
  some ((high * 16 + low) ∷ rest)

unfoldable pub size_of_group : Option Text → Option (Option ℕ)
size_of_group none = some none
size_of_group (some digits) = parse_int64 digits >>= λ n. some (some n)

unfoldable pub positive : ℕ → Option ℕ
positive n = if ltb 0 n then some n else none

unfoldable pub key_of_groups : Groups → Option (Key × Option ℕ)
unfolding size_of_group hex_decode parse_int64 positive guard_text
key_of_groups g = do
  problem_id ← parse_int64 g.problem_id >>= positive
  version ← parse_int64 g.version >>= positive
  bytes ← hex_decode g.testcase
  testcase_id ← guard_text (not (is_empty bytes)) bytes
  size ← size_of_group g.size
  some (
    record {
      problem_id = pos problem_id;
      dataset_version = pos version;
      dataset_checksum = g.checksum;
      testcase_id = testcase_id;
      input_checksum = g.input;
    },
    size,
  )

-- `parseTestcaseCacheName`: the key and the size, if the name says it.
unfoldable pub parse_testcase_cache_name : Text → Option (Key × Option ℕ)
unfolding match_name key_of_groups
parse_testcase_cache_name name = match_name name >>= key_of_groups
