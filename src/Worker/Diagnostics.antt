-- ===== src/Worker/Diagnostics.antt =====
-- workers/judge/internal/adapter/outbound/execute/diagnostics.go: what is read out of the output of a
-- compiler or of a program that failed. The regular expressions are the fields of `Patterns`: what each
-- of them finds in a text.
use go_judge_system.Prelude.{
  ℕ, leb, ltb, pos, Text, text_eq, codes, is_empty, trim_space, parse_digits, Bool, true, false,
  ◌&&◌, ◌||◌, not, Option, none, some, List, [], ◌∷◌, if◌then◌else◌,
}
use go_judge_system.Submission.Message.{public_text}
use go_judge_system.Worker.Execution.{CodeDiagnostic}
use go_judge_system.Worker.Output.{split_lines}

-- A match of a frame or of a compiler's message: the texts of its groups; a column may be missing.
pub record Match : Type 0 where
  pub line : Text
  pub column : Text
  pub message : Text

pub data PatternName : Type 0 where
  go_lang cpp_lang java_lang python_lang : PatternName

-- `sanitize` is the three replacements of `sanitizeOutput`.
pub record Patterns : Type 0 where
  pub compile_matches : PatternName → Text → List Match
  pub runtime_frame : PatternName → Text → Option Match
  pub sanitize : Text → Text
  pub to_upper : Text → Text

abbrev pub max_runtime_error_bytes : ℕ
max_runtime_error_bytes = 4096

positive_or : Option ℕ → ℕ → ℕ
positive_or none fallback = fallback
positive_or (some n) fallback = if ltb 0 n && ltb n 9223372036854775808 then n else fallback

-- `parsePositiveInt`.
unfoldable pub parse_positive_int : Text → ℕ → ℕ
unfolding positive_or
parse_positive_int raw fallback = positive_or (parse_digits (trim_space raw)) fallback

unfoldable pub starts_with : Text → Text → Bool
starts_with [] s = true
starts_with (p ∷ ps) [] = false
starts_with (p ∷ ps) (c ∷ s) = leb p c && leb c p && starts_with ps s

is_frame_line : Text → Bool
is_frame_line line =
    starts_with (codes "goroutine ") line
    || starts_with (codes "Traceback ") line
    || starts_with (codes "File ") line
    || starts_with (codes "at ") line

headline : List Text → Option Text
headline [] = none
headline (l ∷ ls) =
    let line = trim_space l in
    let rest = headline ls in if is_empty line || is_frame_line line then rest else some line

unfoldable pub or_text : Option Text → Text → Text
or_text none s = s
or_text (some t) s = t

-- `runtimeHeadline`.
unfoldable pub runtime_headline : Text → Text
unfolding headline is_frame_line or_text
runtime_headline output = or_text (headline (split_lines output)) (trim_space output)

module _ (ps : Patterns) where
  -- `sanitizeOutput`.
  unfoldable pub sanitize_output : Text → Text
  sanitize_output output = trim_space (ps.sanitize output)

  -- `publicErrorMessage`, which returns "" where there is nothing to show.
  unfoldable pub public_message : Text → Text
  public_message message = or_text (public_text sanitize_output max_runtime_error_bytes message) []

  -- One round of the loop of `parseLineColumnDiagnostics`.
  unfoldable pub compile_diagnostic : Bool → Text → Match → CodeDiagnostic
  compile_diagnostic has_column output m =
      let trimmed = trim_space m.message in
      let message = if is_empty trimmed then trim_space output else trimmed in
      record {
        test_case_id = none;
        kind = codes "compile";
        severity = codes "error";
        message = sanitize_output message;
        line = pos (parse_positive_int m.line 0);
        column = pos (if has_column then parse_positive_int m.column 1 else 1);
      }

  unfoldable pub compile_diagnostics : Bool → Text → List Match → List CodeDiagnostic
  compile_diagnostics has_column output [] = []
  compile_diagnostics has_column output (m ∷ ms) =
      let rest = compile_diagnostics has_column output ms in
      if ltb 0 (parse_positive_int m.line 0)
      then compile_diagnostic has_column output m ∷ rest
      else rest

  -- `parseCompileDiagnostics`.
  unfoldable pub parse_compile_diagnostics : Text → Text → List CodeDiagnostic
  parse_compile_diagnostics language raw =
      let output = sanitize_output raw in
      let upper = ps.to_upper language in
      if text_eq upper (codes "GO")
      then compile_diagnostics true output (ps.compile_matches go_lang output)
      else if text_eq upper (codes "CPP")
      then compile_diagnostics true output (ps.compile_matches cpp_lang output)
      else if text_eq upper (codes "JAVA")
      then compile_diagnostics false output (ps.compile_matches java_lang output)
      else []

  -- `parseRuntimeFrame`; a group that did not match is the empty text.
  unfoldable pub parse_runtime_frame : Bool → Option Match → Option (ℕ × ℕ)
  parse_runtime_frame has_column none = none
  parse_runtime_frame has_column (some m) =
      let line = parse_positive_int m.line 0 in
      if ltb 0 line
      then some (line, if has_column then parse_positive_int m.column 1 else 1)
      else none

  -- `runtimeSourceLocation`.
  unfoldable pub runtime_source_location : Text → Text → Option (ℕ × ℕ)
  runtime_source_location language output =
      let upper = ps.to_upper language in
      if text_eq upper (codes "GO")
      then parse_runtime_frame false (ps.runtime_frame go_lang output)
      else if text_eq upper (codes "CPP")
      then parse_runtime_frame true (ps.runtime_frame cpp_lang output)
      else if text_eq upper (codes "JAVA")
      then parse_runtime_frame false (ps.runtime_frame java_lang output)
      else if text_eq upper (codes "PYTHON")
      then parse_runtime_frame false (ps.runtime_frame python_lang output)
      else none

  unfoldable pub located : Text → Text → Option (ℕ × ℕ) → List CodeDiagnostic
  located id output none = []
  located id output (some (line, column)) =
      record {
        test_case_id = some id;
        kind = codes "runtime";
        severity = codes "error";
        message = runtime_headline output;
        line = pos line;
        column = pos column;
      }
      ∷ []

  -- `parseRuntimeDiagnostics`.
  unfoldable pub parse_runtime_diagnostics : Text → Text → Text → List CodeDiagnostic
  parse_runtime_diagnostics language id raw =
      let output = sanitize_output raw in
      if is_empty (trim_space output)
      then []
      else located id output (runtime_source_location language output)

  unfoldable pub diagnostic_message : List CodeDiagnostic → Option Text
  diagnostic_message [] = none
  diagnostic_message (d ∷ ds) =
      let rest = diagnostic_message ds in
      let message = public_message d.message in
      if text_eq d.kind (codes "runtime") && not (is_empty message) then some message else rest

  -- `runtimeErrorMessage`.
  unfoldable pub runtime_error_message : Text → List CodeDiagnostic → Text
  runtime_error_message stderr ds =
      or_text (diagnostic_message ds) (public_message (runtime_headline (sanitize_output stderr)))
