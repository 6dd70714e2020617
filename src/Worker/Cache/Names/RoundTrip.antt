-- ===== src/Worker/Cache/Names/RoundTrip.antt =====
-- A name is read back as the key and the size that it was made of.
use go_judge_system.Prelude.{
  ℕ, ◌<◌, ==_iff, length, pos, Text, codes, show_nat, show_int, parse_digits-show_nat,
  show_nat-all_digits, show_nat-is_leading, show_nat-is_empty, is_digit, true, false, ◌≡◌, refl,
  sym, Option, none, some, [], ◌∷◌, ◌++◌, is_empty, ◌>>=◌, lt→ltb,
}
use mathlib.Core.List.{append-nil, append_assoc}
use go_judge_system.Worker.Cache.{Key}
use go_judge_system.Worker.Cache.Names.{
  hex_encode, name_head, name, name_with_size, is_lower_hex, strip_prefix, field, guard_text,
  size_group, match_name, in_int64, parse_int64, size_of_group, positive, key_of_groups,
  parse_testcase_cache_name,
}
use go_judge_system.Worker.Cache.Names.Fields.{
  all_pass, ends_field, span-append, AllBytes, hex_decode-hex_encode, hex_encode_lower, digits_pass,
}

-- The digests of a key.
abbrev pub IsDigest : Text → Type 0
IsDigest s = (length s ≡ 64) × (all_pass is_lower_hex s ≡ true)

positive_number :
    (n : ℕ) → 0 < n → n < 9223372036854775808 → (parse_int64 (show_nat n) >>= positive) ≡ some n
unfolding parse_int64 in_int64 positive
positive_number n p h =
    rw (parse_digits-show_nat n h, lt→ltb n 9223372036854775808 h, lt→ltb 0 n p) refl

-- The sizes that a name can carry.
abbrev pub IsSize : Option ℕ → Type 0
IsSize none = Unit {0}
IsSize (some n) = n < 9223372036854775808

size_suffix : Option ℕ → Text
size_suffix none = []
size_suffix (some n) = codes "-s" ++ show_nat n

shown : Option ℕ → Option Text
shown none = none
shown (some n) = some (show_nat n)

size_suffix_ends : (o : Option ℕ) → ends_field is_lower_hex (size_suffix o) ≡ true
unfolding size_suffix ends_field is_lower_hex is_digit
size_suffix_ends none = refl
size_suffix_ends (some n) = refl

size_group-size_suffix : (o : Option ℕ) → size_group (size_suffix o) ≡ some (shown o)
unfolding size_group size_suffix shown guard_text field ends_field strip_prefix
size_group-size_suffix none = refl
size_group-size_suffix (some n) =
    rw
      (
        ← append-nil (show_nat n),
        span-append is_digit (show_nat n) [] (digits_pass _ (show_nat-all_digits n)) refl,
        append-nil (show_nat n),
        show_nat-is_empty n,
      )
      refl

-- The name with its parts in the order in which they are read.
name_text : Text → Text → Text → Text → Text → Text → Text
name_text p v sum id hash left =
    codes "astracode-tc-v1-p"
    ++ (p
        ++ (codes "-v"
            ++ (v
                ++ (codes "-d"
                    ++ (sum ++ (codes "-t" ++ (id ++ (codes "-i" ++ (hash ++ left)))))))))

name-name_text :
    (p v : ℕ) (sum id hash left : Text)
    → name (record {
      problem_id = pos p;
      dataset_version = pos v;
      dataset_checksum = sum;
      testcase_id = id;
      input_checksum = hash;
    })
        ++ left
      ≡ name_text (show_nat p) (show_nat v) sum (hex_encode id) hash left
unfolding name name_head name_text show_int
name-name_text p v sum id hash left =
    rw
      (
        append_assoc (show_nat p) _ left,
        append_assoc (show_nat v) _ left,
        append_assoc sum _ left,
        append_assoc (hex_encode id) _ left,
      )
      refl

match_name-name_text :
    (p v : ℕ) (sum id hash : Text) (size : Option ℕ)
    → 0 < p
    → p < 9223372036854775808
    → 0 < v
    → v < 9223372036854775808
    → IsDigest sum
    → IsDigest hash
    → is_empty id ≡ false
    → all_pass is_lower_hex id ≡ true
    → match_name (name_text (show_nat p) (show_nat v) sum id hash (size_suffix size))
      ≡ some (record {
        problem_id = show_nat p;
        version = show_nat v;
        checksum = sum;
        testcase = id;
        input = hash;
        size = shown size;
      })
unfolding match_name field guard_text name_text ends_field strip_prefix is_digit is_lower_hex
match_name-name_text p v sum id hash size p0 p1 v0 v1 (sl, sp) (hl, hp) i ip =
    rw
      (
        span-append is_digit (show_nat p) _ (digits_pass _ (show_nat-all_digits p)) refl,
        show_nat-is_leading p p0 p1,
        span-append is_digit (show_nat v) _ (digits_pass _ (show_nat-all_digits v)) refl,
        show_nat-is_leading v v0 v1,
        span-append is_lower_hex sum _ sp refl,
        (==_iff (length sum) 64).1 sl,
        span-append is_lower_hex id _ ip refl,
        i,
        span-append is_lower_hex hash (size_suffix size) hp (size_suffix_ends size),
        (==_iff (length hash) 64).1 hl,
        size_group-size_suffix size,
      )
      refl

hex_encode-is_empty : (s : Text) → is_empty s ≡ false → is_empty (hex_encode s) ≡ false
unfolding hex_encode
hex_encode-is_empty [] h = h
hex_encode-is_empty (c ∷ s) h = refl

size_of_group-shown : (o : Option ℕ) → IsSize o → size_of_group (shown o) ≡ some o
unfolding size_of_group shown parse_int64 in_int64
size_of_group-shown none h = refl
size_of_group-shown (some n) h = rw (parse_digits-show_nat n h, lt→ltb n 9223372036854775808 h) refl

abbrev pub cache_key : ℕ → ℕ → Text → Text → Text → Key
cache_key p v sum id hash = record {
  problem_id = pos p;
  dataset_version = pos v;
  dataset_checksum = sum;
  testcase_id = id;
  input_checksum = hash;
}

-- The name of a key, with a size or without.
unfoldable pub sized_name : Key → Option ℕ → Text
sized_name k none = name k
sized_name k (some n) = name_with_size k n

sized_name-size_suffix : (k : Key) (o : Option ℕ) → sized_name k o ≡ name k ++ size_suffix o
unfolding sized_name name_with_size size_suffix
sized_name-size_suffix k none = sym (append-nil (name k))
sized_name-size_suffix k (some n) = append_assoc (name k) (codes "-s") (show_nat n)

-- The name of an input, with its size or without, is read back as its key and that size: for a problem and
-- a version that are positive numbers of 64 bits, checksums of 64 hexadecimal digits, a testcase id of at
-- least one byte, and a size of 64 bits.
pub parse_testcase_cache_name-sized_name :
    (p v : ℕ) (sum id hash : Text) (size : Option ℕ)
    → (0 < p) × (p < 9223372036854775808)
    → (0 < v) × (v < 9223372036854775808)
    → IsDigest sum
    → IsDigest hash
    → (is_empty id ≡ false) × AllBytes id
    → IsSize size
    → parse_testcase_cache_name (sized_name (cache_key p v sum id hash) size)
      ≡ some (cache_key p v sum id hash, size)
unfolding parse_testcase_cache_name key_of_groups guard_text
parse_testcase_cache_name-sized_name p v sum id hash size (p0, p1) (v0, v1) ds dh (i, bytes) hs =
    rw
      (
        sized_name-size_suffix (cache_key p v sum id hash) size,
        name-name_text p v sum id hash (size_suffix size),
        match_name-name_text p v sum (hex_encode id) hash size p0 p1 v0 v1 ds dh
            (hex_encode-is_empty id i) (hex_encode_lower id bytes),
        positive_number p p0 p1,
        positive_number v v0 v1,
        hex_decode-hex_encode id bytes,
        i,
        size_of_group-shown size hs,
      )
      refl
