-- ===== src/Lib.antt =====
-- A model of recruiter-pilot's core logic: who may do what (authentication, sessions, roles,
-- assignments, the audit trail), the anti-forgery tokens of the viewer, the client of the language
-- model, the chunks of a document, the life of a résumé and of a job, and the scoring, verification
-- and ranking of candidates.
--
-- The parts and the files that model them:
--
-- * Auth models the access control of the backend over one state, `Auth.Model.Db`: the tables `users`,
--   `sessions`, `job_assignees` and `audit_log` of core/src/models/ddl.py and the clock. Each SQL
--   statement is a function on the lists; what a primary key, a foreign key or a CHECK refuses is the
--   error `integrity`. An HTTP error is a constructor of `Auth.Model.Error`, and a route that runs in
--   one transaction returns the new state only when it succeeds.
--   - Auth.Keys: `resolve_role`, `require_role` (core/src/api/deps.py), and `auth_enabled` and
--     `validate_startup_auth_config` (core/src/settings.py).
--   - Auth.Sessions, Auth.Users, Auth.Audit: session_service.py, user_service.py and audit_service.py
--     of core/src/services.
--   - Auth.Gates: the gates of core/src/api/deps.py that judge the session.
--   - Auth.Admin: the role change of core/src/api/routes/users.py.
--   - Auth.Assignees: core/src/services/job_assignee_service.py and core/src/api/routes/job_assignees.py.
-- * Csrf models core/frontend/csrf.py: the tokens live in Flask's signed session, which is passed along.
-- * Matching models core/src/pipeline/matching/stages.py, its data in core/src/schemas/matching.py, and
--   the end of core/src/pipeline/matching/orchestrator.py.
--   - Matching.Float: Python's float as a type with operations, an instance argument. The theorems on
--     scores name the laws they use (`IsOrdered`, `IsMonotone`): binary64 arithmetic that rounds to
--     nearest keeps the order of finite values, and counts exactly up to 2 ^ 53 (`exact`). A type of
--     fixed-point numbers meets all the laws.
--   - Matching.Model: evidence, weights and breakdowns.
--   - Matching.Verify: `verify_evidence` and what it normalises.
--   - Matching.Combine and Matching.Sort: stage 4, whose `list.sort(reverse=True)` is stable.
--   - Matching.Reverse: `rank_job_matches` of orchestrator.py, the jobs for one résumé.
--   - Matching.Shortlist: stage 3 and `generate_shortlist` from the scored candidates of stage 2 on.
--   - Matching.Scoring and Matching.Education: the sub-scores of stage 2.
-- * Llm models core/src/pipeline/llm/client.py. The state of a client is its count of failures, the time
--   its breaker opened, the clock in milliseconds and what it sent; the endpoint is the reply to the
--   n-th request and the time it takes.
--   - Llm.Json: the JSON values and `_strip_nuls`. Llm.Values: the exceptions, and Python's access to
--     the JSON of a reply.
--   - Llm.Client: the breaker and `_post_json`. Llm.Chat: both chat endpoints. Llm.ChatJson:
--     `chat_json` and the digest of a validation error. Llm.Embed: `embed`. Llm.Extract:
--     `_extract_json`.
-- * Parsing models core/src/pipeline/parsing/chunk.py: Parsing.Split its two splits, Parsing.Chunk the
--   sections, the chunks and the scrub of chunk ids.
-- * Resumes models the life of a résumé over one state, `Resumes.Model.ResumeDb`: the state of Auth, the
--   tables `resumes` and `outbox`, and which résumés have a node in the graph. An outbox row's id is its
--   place in the table.
--   - Resumes.Status and Resumes.Withdrawal: core/src/services/resume_service.py.
--   - Resumes.Mime and Resumes.Upload: `detect_mime` and `upload_resumes` of resume_service.py, over a
--     state of their own (`UploadDb`: the rows as they are inserted, the blobs, the UUIDs drawn).
--   - Resumes.Parse: the start and the end of `parse_resume` (core/src/worker/resume_tasks.py); what
--     lies between them takes minutes and is an argument, so other steps can run in between.
--   - Resumes.Drain: core/src/worker/graph_tasks.py. Resumes.Reconcile: core/src/worker/reconcile.py.
--   - Resumes.Life: the steps and their sequences. Resumes.Races: orders of a withdrawal, a parse and a
--     drain.
-- * Uploads models core/src/services/zip_upload.py, `expand_zip_entries`: what `zipfile` raises besides
--   `BadZipFile` ends the call and is left out. Uploads.Pairing models `pair_applicants` of
--   core/src/services/bulk_ingest_service.py.
-- * Jobs models the status, the parse write-back and the partial update of
--   core/src/services/job_service.py; each call runs without another in between.
-- * Redaction models the labels of core/src/services/redaction.py.
-- * Base holds Booleans, lists, integers, dictionaries and texts (lists of code points).
--
-- How the parts interact: a request passes the key check and the gates (Auth.Keys, Auth.Gates), the
-- routes (Auth.Admin, Auth.Assignees) call the services in the order of the source and append to
-- the audit log. Stage 2 scores (Matching.Scoring, Matching.Education), stage 3's evidence is
-- verified (Matching.Verify), stage 4 combines and ranks (Matching.Combine).
--
-- `chunk_resume` gives the parse task its chunks, `chat_json` and `embed` the content of the
-- payload. A withdrawal writes the audit row through Auth.Audit and an outbox row, the drainer
-- turns outbox rows into nodes, and ranking starts from the nodes.
--
-- Parameters: `str.lower`, `str.splitlines`, the members of an archive and the chunks that are read
-- of them, the regular expressions of the chunker and of the
-- fenced block, `json.loads`, the validation of a schema, the replies of the endpoint, the result
-- of a parse, whether a projection succeeds, rapidfuzz's ratios, the language model's answer, the
-- parsed résumés, sha256, `secrets.token_urlsafe`, `urlsplit`, and whether a job exists. UUIDs and
-- times are natural numbers, a time in seconds outside Llm; the years of a skill row are integers
-- (Base.Int). Whether the queue takes a job is a parameter of the reconciling tick. In an upload the
-- n-th `uuid4`, the SHA-256, the encryption and `PurePosixPath.name` are parameters, and so are `str.casefold` and
-- `os.path.splitext` in Redaction, and `Path.stem` and the suffix expressions in
-- Uploads.Pairing. The retries of the model client run on
-- the number of attempts that are left, as the source's `range`. `slices` and `digits` run on fuel,
-- the length of the text and one more than the number, and `letter_loop` on the number itself. Every
-- other loop runs along a list.
--
-- Not modelled: the database drivers, the Cypher of the graph beyond the presence of a node, HTTP,
-- the extraction and the redaction inside the parse task, the document parsers,
-- the stored shortlists, the login against CAS, the rendering of pages and the operations tools.
-- The log lines are left out, and so are the columns that no modelled branch reads.
pub mod Base
pub mod Auth
pub mod Csrf
pub mod Matching
pub mod Llm
pub mod Parsing
pub mod Resumes
pub mod Uploads
pub mod Jobs
pub mod Redaction
