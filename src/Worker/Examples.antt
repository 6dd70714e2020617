-- ===== src/Worker/Examples.antt =====
-- The judge worker at concrete inputs.
use go_judge_system.Prelude.{
  add_int64, exceeds, arith, pos, Text, codes, true, false, ◌≡◌, refl, ◌≤◌, none, some, [], ◌∷◌,
  ◌++◌, trim_space, is_empty,
}
use go_judge_system.Submission.Errors.{ok}
use go_judge_system.Submission.Entity.{JobMessage, Status}
use go_judge_system.Submission.Apply.{check_result}
use go_judge_system.Worker.Output.{
  replace_crlf, replace_cr, trim_right, is_line_feed, normalize_output, output_equal,
}
use go_judge_system.Worker.Output.LineEnds.{crlf, cr, with_line_ends, output_equal_line_ends}
use go_judge_system.Worker.Output.Laws.{
  scrub, normalize_output-scrub, normalize_output_idem, has_no_cr,
}
use go_judge_system.Worker.Consumer.{
  default_max_retries, executes, waits, marks, refuses, Delivery, send_to_dlt, handle_message,
}
use go_judge_system.Worker.Consumer.Laws.{
  count_marks, count_executes, handle_message-marked, handle_message-executes,
  handle_message-exhausted,
}
use go_judge_system.Worker.Execution.{WorkerError, fails, returns}
use go_judge_system.Worker.Job.{Ports, result_message, system_error_result, process_judge_job}
use go_judge_system.Worker.Job.Laws.{
  Settles, process_judge_job-Settles, system_error_result-checked,
}
use go_judge_system.Worker.Cache.{
  Key, Cache, CacheConfig, empty_cache, reserve, store, pin, remove_if_match,
}
use go_judge_system.Worker.Cache.Accounting.{
  IsAccounted, empty_cache-IsAccounted, store-IsAccounted, pin-IsAccounted,
  remove_if_match-IsAccounted,
}
use go_judge_system.Worker.Cache.Uploads.{
  Uploads, no_uploads, CacheRun, fresh, later, admits, uploads, IsWithin,
}
use go_judge_system.Worker.Cache.Uploads.Bounds.{CacheRun-IsWithin}

-- "a \r\n" and "a \n".
abbrev windows_output : Text
windows_output = 97 ∷ 32 ∷ 13 ∷ 10 ∷ []

abbrev unix_output : Text
unix_output = 97 ∷ 32 ∷ 10 ∷ []

normalize_output-scrub_example :
    normalize_output windows_output
    ≡ trim_right is_line_feed (scrub (replace_cr (replace_crlf windows_output)))
normalize_output-scrub_example = normalize_output-scrub windows_output

normalize_output_idem_example :
    normalize_output (normalize_output windows_output) ≡ normalize_output windows_output
normalize_output_idem_example = normalize_output_idem windows_output

no_cr : has_no_cr unix_output ≡ true
unfolding has_no_cr
no_cr = refl

output_equal_line_ends_example :
    output_equal (with_line_ends crlf unix_output) (with_line_ends cr unix_output)
    ≡ output_equal unix_output unix_output
output_equal_line_ends_example = output_equal_line_ends crlf cr unix_output unix_output no_cr no_cr

abbrev job : JobMessage
job = record {
  submission_id = pos 1;
  problem_id = pos 7;
  problem_slug = codes "sum";
  user_id = codes "u1";
  language = codes "GO";
  source_code = codes "x";
  attempt_id = codes "a1";
  enqueued_at = 1000;
}

-- Every try fails, and so does the dead-letter topic.
abbrev failing : Delivery
failing = record {
  has_slot = true;
  decoded = some job;
  decode_error = [];
  execute_error = λ j n. some (codes "down");
  canceled_after = λ n. false;
  canceled_waiting = λ n. false;
  dlt = refuses;
}

handle_message-marked_example : count_marks (handle_message failing) ≡ 1
handle_message-marked_example = handle_message-marked failing (refl, (λ n. refl), (λ n. refl))

handle_message-executes_example : count_executes (handle_message failing) ≤ default_max_retries
handle_message-executes_example = handle_message-executes failing

handle_message-exhausted_example :
    handle_message failing
    ≡ executes 1
        ∷ waits 500
        ∷ executes 2
        ∷ waits 1000
        ∷ executes 3
        ∷ send_to_dlt refuses (codes "down") 3
      ++ marks (codes "dlt_forwarded") ∷ []
handle_message-exhausted_example =
    handle_message-exhausted failing job (codes "down") (codes "down") (codes "down")
      (refl, (λ n. refl), (λ n. refl)) refl refl refl refl

abbrev lost_dataset : WorkerError
lost_dataset = record { message = codes "bad zip"; non_retryable = true }

abbrev ports : Ports
ports = record {
  get_test_case_metadata = λ k.
      returns
        (record { problem_id = k; zip_download_url = []; test_count = pos 1; version = pos 1 });
  load = λ m. fails lost_dataset;
  execute = λ r. fails lost_dataset;
  send_error = λ m. none;
}

process_judge_job-Settles_example : Settles job (process_judge_job ports job)
process_judge_job-Settles_example = process_judge_job-Settles ports job

attempt_is_set : is_empty (trim_space (codes "a1")) ≡ false
unfolding trim_space
attempt_is_set = refl

system_error_result-checked_example :
    check_result (
      result_message
        (pos 1)
        (codes "a1")
        (system_error_result (codes "load official testcases") lost_dataset))
    ≡ ok (record { status = Status.system_error; results = [] })
system_error_result-checked_example =
    system_error_result-checked job (codes "load official testcases") lost_dataset refl
      attempt_is_set

abbrev key : Key
key = record {
  problem_id = pos 7;
  dataset_version = pos 1;
  dataset_checksum = codes "c";
  testcase_id = codes "1";
  input_checksum = codes "i";
}

abbrev limits : CacheConfig
limits = record { max_bytes = 10; max_entries = 2 }

room : (reserve limits 4 empty_cache).0 ≡ true
unfolding reserve exceeds add_int64
room = refl

abbrev reserved : Uploads
reserved = record no_uploads { cache = (reserve limits 4 empty_cache).1; pending = 4 ∷ [] }

abbrev uploaded : Uploads
uploaded = record {
  cache = store 5 key (codes "f1") 4 true reserved.cache;
  pending = [];
  stored = 4 ∷ [];
}

uploaded-CacheRun : CacheRun limits uploaded
uploaded-CacheRun = later (later fresh (admits 4 room)) (uploads 5 key (codes "f1") 4 [] [] refl)

CacheRun-IsWithin_example : IsWithin limits uploaded
CacheRun-IsWithin_example = CacheRun-IsWithin limits (omega arith) uploaded-CacheRun

abbrev one_unsized : Cache
one_unsized = store 5 key (codes "f1") 0 false empty_cache

store-IsAccounted_example : IsAccounted one_unsized
store-IsAccounted_example =
    store-IsAccounted 5 key (codes "f1") 0 false empty_cache empty_cache-IsAccounted

one_unsized-IsAccounted : IsAccounted one_unsized
one_unsized-IsAccounted =
    store-IsAccounted 5 key (codes "f1") 0 false empty_cache empty_cache-IsAccounted

pin-IsAccounted_example : IsAccounted (pin 6 key 4 one_unsized).1
pin-IsAccounted_example = pin-IsAccounted 6 key 4 one_unsized one_unsized-IsAccounted

remove_if_match-IsAccounted_example : IsAccounted (remove_if_match key (codes "f1") one_unsized).1
remove_if_match-IsAccounted_example =
    remove_if_match-IsAccounted key (codes "f1") one_unsized one_unsized-IsAccounted
