-- ===== src/Submission/Message.antt =====
-- `judgeOutputFields`, `publicErrorMessage` and `stripControlCharacters` of
-- services/submission/internal/application/usecase/result/apply_judge_result.go, with the functions
-- of Go's unicode/utf8 and strings that they call. The three regular expressions, which hide paths
-- of the sandbox, are an argument.
pub mod Bounds
use mathlib.Core.List.{reverse}
use go_judge_system.Prelude.{
  ℕ, zero, suc, ◌-◌, ltb, leb, ◌==◌, length, take, Text, codes, is_empty, trim_space, Bool, true,
  false, ◌&&◌, ◌||◌, Option, none, some, [], ◌∷◌, ◌++◌, if◌then◌else◌,
}
use go_judge_system.Submission.Entity.{Status, ResultMessage}

-- The bytes that must follow a first byte, and the range of the next one.
record Expect : Type 0 where
  more : ℕ
  low : ℕ
  high : ℕ

expecting : ℕ → ℕ → ℕ → Expect
expecting n low high = record { more = n; low = low; high = high }

between : ℕ → ℕ → ℕ → Bool
between low high c = leb low c && leb c high

-- What a byte begins; `none` for a byte that begins nothing.
lead : ℕ → Option Expect
unfolding expecting between
lead c =
    if ltb c 0x80
    then some (expecting 0 0 0)
    else if between 0xc2 0xdf c
    then some (expecting 1 0x80 0xbf)
    else if c == 0xe0
    then some (expecting 2 0xa0 0xbf)
    else if c == 0xed
    then some (expecting 2 0x80 0x9f)
    else if between 0xe1 0xef c
    then some (expecting 2 0x80 0xbf)
    else if c == 0xf0
    then some (expecting 3 0x90 0xbf)
    else if between 0xf1 0xf3 c
    then some (expecting 3 0x80 0xbf)
    else if c == 0xf4
    then some (expecting 3 0x80 0x8f)
    else none

fits : Expect → ℕ → Bool
unfolding between
fits x c = between x.low x.high c

next_expect : Expect → Expect
unfolding expecting
next_expect x = expecting (x.more - 1) 0x80 0xbf

-- `utf8.ValidString`, on what is left of a character and the text after it.
valid_from : ℕ → Expect → Text → Bool
valid_from zero x [] = true
valid_from (suc n) x [] = false
valid_from zero x (c ∷ s) = elim (lead c) [ none ↦ false | some y ↦ valid_from y.more y s ]
valid_from (suc n) x (c ∷ s) = fits x c && valid_from n (next_expect x) s

unfoldable pub valid_utf8 : Text → Bool
unfolding valid_from lead fits next_expect
valid_utf8 s = valid_from 0 (record { more = 0; low = 0; high = 0 }) s

-- `strings.ToValidUTF8(s, "")`: `held` are the bytes of an unfinished character, the last first.
keep_valid : ℕ → Expect → Text → Text → Text
keep_valid n x held [] = []
keep_valid zero x held (c ∷ s) = elim (lead c) [
  | none ↦ keep_valid zero x [] s
  | some y ↦ elim y.more [
    | zero ↦ c ∷ keep_valid zero x [] s
    | suc m ↦ keep_valid (suc m) y (c ∷ []) s
  ]
]
keep_valid (suc n) x held (c ∷ s) =
    let begin : Text = elim (lead c) [
      | none ↦ keep_valid zero x [] s
      | some y ↦ elim y.more [
        | zero ↦ c ∷ keep_valid zero x [] s
        | suc m ↦ keep_valid (suc m) y (c ∷ []) s
      ]
    ] in
    let done = reverse (c ∷ held) ++ keep_valid zero x [] s in
    let go = keep_valid n (next_expect x) (c ∷ held) s in
    elim (fits x c) [ false ↦ begin | true ↦ elim n [ zero ↦ done | suc m ↦ go ] ]

unfoldable pub to_valid_utf8 : Text → Text
unfolding keep_valid lead fits next_expect
to_valid_utf8 s = keep_valid 0 (record { more = 0; low = 0; high = 0 }) [] s

kept_character : ℕ → Bool
kept_character r =
    if r == b'\n' || r == b'\r' || r == b'\t'
    then true
    else leb 0x20 r && (if r == 0x7f then false else true)

-- On valid UTF-8 a control character is one byte, and no other character holds such a byte.
unfoldable pub strip_control_characters : Text → Text
unfolding kept_character
strip_control_characters [] = []
strip_control_characters (r ∷ s) =
    let rest = strip_control_characters s in if kept_character r then r ∷ rest else rest

-- The loop that shortens the message byte by byte, over the reversed text, until it is valid.
shorten : Text → Text
shorten [] = []
shorten (c ∷ s) =
    let rest = shorten s in
    let whole = reverse (c ∷ s) in elim (valid_utf8 whole) [ true ↦ whole | false ↦ rest ]

-- U+2026.
abbrev pub ellipsis : Text
ellipsis = 0xe2 ∷ 0x80 ∷ 0xa6 ∷ []

abbrev pub max_stored_error_message_bytes : ℕ
max_stored_error_message_bytes = 4096

truncated : ℕ → Text → Text
unfolding shorten
truncated limit message =
    if ltb limit (length message)
    then trim_space (shorten (reverse (take limit message))) ++ ellipsis
    else message

unfoldable pub public_text : (Text → Text) → ℕ → Text → Option Text
unfolding truncated
public_text hide_paths limit value =
    let message = trim_space (strip_control_characters (to_valid_utf8 (hide_paths value))) in
    if is_empty message then none else some (truncated limit message)

unfoldable pub public_error_message : (Text → Text) → Option Text → Option Text
unfolding public_text
public_error_message hide_paths none = none
public_error_message hide_paths (some value) =
    public_text hide_paths max_stored_error_message_bytes value

unfoldable pub non_blank_string : Option Text → Option Text
non_blank_string none = none
non_blank_string (some value) = if is_empty (trim_space value) then none else some value

abbrev pub or_else : Option Text → Text → Option Text
or_else none t = some t
or_else (some m) t = some m

abbrev pub public_system_error_message : Text
public_system_error_message = codes "The judge could not complete this submission."

abbrev pub public_time_limit_message : Text
public_time_limit_message = codes "Execution exceeded the time limit."

abbrev pub public_memory_limit_message : Text
public_memory_limit_message = codes "Execution exceeded the memory limit."

abbrev pub public_output_limit_message : Text
public_output_limit_message = codes "Execution exceeded the output limit."

-- The compile output and the error message that are stored.
unfoldable pub judge_output_fields :
    (Text → Text) → Status → ResultMessage → Option Text × Option Text
judge_output_fields hide Status.compilation_error msg = (non_blank_string msg.compile_output, none)
judge_output_fields hide Status.runtime_error msg =
    (none, public_error_message hide msg.error_message)
judge_output_fields hide Status.time_limit_exceeded msg =
    (none, or_else (public_error_message hide msg.error_message) public_time_limit_message)
judge_output_fields hide Status.memory_limit_exceeded msg =
    (none, or_else (public_error_message hide msg.error_message) public_memory_limit_message)
judge_output_fields hide Status.output_limit_exceeded msg =
    (none, or_else (public_error_message hide msg.error_message) public_output_limit_message)
judge_output_fields hide Status.system_error msg = (none, some public_system_error_message)
judge_output_fields hide _ msg = (none, none)
