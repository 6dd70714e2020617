-- ===== src/Lib.antt =====
-- An online judge: a submission is stored and queued, a worker runs it in a sandbox, and its result is
-- applied to the submission. This library models the submission service's write path and the parts of
-- the judge worker that decide what is run, what is sent back and what is kept.
--
-- The parts and their files:
--
-- Submission (services/submission/internal)
--   Errors         domain/errors.go, pkg/response: sentinel errors, AppError and errors.Is.
--   Entity         domain/entity and pkg/judge: submissions, attempts, results, events, messages.
--   Tables         the tables of submission_db as lists of rows, the statements on them, and what the
--                  database may refuse (Backend). Tables/Laws has the laws of lookups and updates.
--   Store          adapter/outbound/persistence/postgres and adapter/outbound/judge/kafka_judge.go: the
--                  repositories, with transactions that leave the tables as they were on an error.
--   Message        the clean-up of a result's texts in apply_judge_result.go.
--   Create         application/usecase/user/create_submission.go.
--   Rejudge        application/usecase/admin/rejudge_submission.go.
--   Apply          application/usecase/result/apply_judge_result.go.
--   ResultConsumer adapter/inbound/kafka/judge_result_consumer.go: one result message with its tries.
--   Relay          adapter/outbound/outbox/relay.go: a round of the poll of the outbox.
--   EventHub       adapter/outbound/stream/event_hub.go.
--   Effects        what each transaction does when it succeeds.
--   Consistency    the invariant between the tables, and that each transaction keeps it.
--   Lifecycle      every operation as a step on the tables, in any order, and what follows of it.
-- Worker (workers/judge/internal)
--   Output         domain/output.go: the comparison of outputs.
--   Consumer       adapter/inbound/kafka/judge_job_consumer.go: one message, as a sequence of events.
--   Job            application/usecase/judge/process_judge_job.go and
--                  adapter/outbound/judge/kafka_result_publisher.go.
--   Execution      application/port/outbound/judge.go: the requests and the results of the worker.
--   Language       pkg/gojudge/config.go: how a program of each language is compiled and run.
--   Diagnostics    adapter/outbound/execute/diagnostics.go.
--   Sandbox        adapter/outbound/execute/go_judge_client.go: the messages of the sandbox, limits and
--                  statuses. Requests builds the requests, Answers reads the responses, Execute has
--                  the loop over the batches; their laws are in the other child modules. Published joins
--                  Job, Load, Execute and the checks of Submission/Apply.
--   Loader         adapter/outbound/testcase/official_loader.go: Load, with the archive (Archive) and the
--                  directory of testcases.
--   RunCode        application/usecase/judge/run_code.go.
--   Cache          adapter/outbound/execute/testcase_cache.go: the accounting of the cached inputs
--                  (Cache, Uploads), the names of their files (Names), what is given up (Eviction), and
--                  getOrAdd (Lookup).
-- Prelude holds what all share: Boolean tests, lists, integers, decimal texts, byte strings and
-- strings.TrimSpace.
--
-- How code becomes a model. A string is the list of its bytes; an int is an integer; a time is a number.
-- A function of the repositories is a map from tables to an error, or to a value and new tables. A
-- transaction is atomic and holds its row locks, so that whole transactions interleave as steps; what is
-- read outside of one is read at other tables. The clock, new identifiers, the problem service, the
-- cooldown, the sandbox, the broker and the database's refusals are arguments. The only behaviour that is
-- assumed of the database is the unique index on attempt ids.
--
-- The sandbox client takes the sandbox's RPC, the testcase cache and the file system as the fields of a
-- record (SandboxPorts), whose calls take a world and return the next one. A law that needs more of the
-- sandbox says so by the record Serves: a command runs on the text that its input file holds, and the
-- -- cache gives out files that hold the input; or by RunsUncached, where the cache is switched off. What a
-- -- batch does when a cached file is lost is modelled (retry_batch), without a law of its own.
--
-- The loops are recursions on the list that they run over, or on the tries that are left. The loop over
-- the batches of a request runs on fuel: the number of its testcases, of which every batch takes at
-- least one. Decimal texts are made with twenty digits at most, which all numbers of 64 bits have.
--
-- Not modelled: JSON and HTTP, logging, goroutines and channels but for the steps that their locks make,
-- list and statistics queries, the auth and problem services and the benchmark
-- tools. The matches of regular expressions and the replacement of local paths in messages are
-- arguments. The byte sums of the cache and of an archive are the 64 bits of an int64, with their
-- -- wrap-around; other numbers have no upper bound but where a conversion to 64 bits is written out.
mod Prelude
pub mod Submission
pub mod Worker
