-- ===== src/Lib.antt =====
-- amp-sentinel receives fault events over HTTP, queues them by severity, has an AI agent diagnose each against the
-- project's source, and judges the structured answer before it is reported. This library models the parts that decide:
-- what is let in, in which order it is worked on, what a diagnosis does to a project's checkout and in which order,
-- how an answer is repaired, checked and scored, when an earlier report stands in for a new diagnosis, what the store
-- holds afterwards, and what the admin API shows of it.
--
-- How the parts interact: the handler of intake/ drops duplicates and enforces the rate limit, then calls a function
-- of main.go that stores the event and calls Submit of scheduler/, which makes a task and pushes it on the priority
-- queue. A worker pops it and calls diagnoseFn of main.go, which stores the task, calls Engine.Diagnose of diagnosis/,
-- stores what comes of it, and has notify/ post a card. Engine.Diagnose looks for an earlier report in the store, else
-- it locks the project, has project/ prepare the checkout, has amp/ run the agent in it with the servers of skill/,
-- and checks that nothing was changed; the answer's JSON is extracted, repaired and validated, its code locations are
-- verified in the checkout, and the whole is scored. The server of api/ reads the store, and hands stored events to
-- the scheduler once more.
--
-- Files, by the source that they model:
--   Prelude: numbers, lists, Go strings as bytes (Text), their runes (Runes) and signed integers (Int).
--   Intake.Event, Intake.Json, Intake.Display: intake/types.go, RawEvent, SeverityPriority, resolveField,
--     findScalarField, SanitizeDisplayText, TruncateRunes, ExtractTitle.
--   Intake.Details: intake/types.go, ExtractDisplayFields, normalizeTime, EscapeLarkMD.
--   Intake.Clock, Intake.Dedup: intake/handler.go, checkDedupWithWindow and the clean-up of its table. The sync.Map is
--     a function from fingerprints; LoadOrStore and CompareAndSwap are two steps with room for other goroutines.
--   Intake.RateLimit: checkRateLimit, shardIndex (FNV-1a modulo 2^32) and the clean-up of the shards.
--   Intake.Fingerprint: ComputeFingerprint, fastFingerprint over the tokens that a json.Decoder reads, and the hashes.
--   Intake.Handler, Intake.Endpoints: NewHandler, submitEvent, processEvent, and ServeHTTP, ServeBatch and
--     ServeIncidentCompat over a request that net/http has taken apart.
--   Scheduler.Task, Scheduler.Heap, Scheduler.Queue: scheduler/task.go. Heap is taskHeap with container/heap's Push and
--     Pop, Queue is priorityQueue, each operation one step under its mutex.
--   Scheduler.Work: scheduler/scheduler.go, New, the task of Submit, processTask and safeProcessTask.
--   Scheduler.System: Start, Submit, Stop and the workers, as a step relation on the whole scheduler; a worker's pop,
--     its counting in, the end of its task and its counting out are steps of their own.
--   Diagnosis.Types, Diagnosis.Report: the records of diagnosis/structured.go, scoring.go and report.go.
--   Diagnosis.Repair, Diagnosis.Parse: diagnosis/structured.go, the repair of JSON text and ParseDiagnosisJSON.
--     Diagnosis.Repair.Grammar says what matched brackets are, apart from the code's own loops.
--   Diagnosis.Paths, Diagnosis.Verify, Diagnosis.Score: diagnosis/scoring.go, safeJoinUnderRoot with path/filepath
--     on Unix, VerifyCodeLocations, and the six dimensions with NormalizeScore.
--   Diagnosis.Reuse, Diagnosis.Payload: diagnosis/fingerprint.go, canReuse and buildReusedReport, and
--     ComputeDiagnosisFingerprint with the normalisation of the payload.
--   Effects: what a diagnosis does to the world, as a trace of effects; the world answers by the trace so far. A
--     function of Go that has effects is an Action.
--   Diagnosis.Heuristics, Diagnosis.Prompt, Diagnosis.Fixer: diagnosis/engine.go, the heuristics and names;
--     prompt.go, truncatePayload; fixer.go.
--   Diagnosis.Assembly, Diagnosis.Engine: diagnosis/engine.go, the report's fields, NewEngine and Diagnose; Steps and
--     Messages hold the parts that Diagnose is put together from.
--   Project.Registry, Project.Sources: project/registry.go and project/source.go.
--   Amp.Types, Amp.Client, Amp.Permission: amp/types.go, Execute and buildArgs of amp/client.go, amp/permission.go.
--   Skill.Types, Skill.Loader, Skill.Manager: skill/types.go and skill/manager.go.
--   Logger.File: logger/file.go, the files by name and size.
--   Main.Reports, Main.Task, Main.Intake: main.go, the conversion of reports, diagnoseFn, and the functions that the
--     intake handler is given; ParseDuration of config.go.
--   Main.Config, Main.Wiring: config.go, and the configurations that main.go makes the parts with.
--   Notify.Card, Notify.Feishu: notify/feishu.go, buildCard, and Notify with its retries.
--   Api.Messages, Api.Server: api/server.go, requests and answers, and the handlers behind the authorization; the
--     redirects of http.ServeMux are those of the standard library's documentation.
--   Store.Records: store/store.go. Store.Table, Store.JsonStore: store/json.go, a Go map as the list of its records in
--     the order of iteration; sort.Slice is a parameter.
--   Tests: the theorems applied to concrete inputs.
--
-- Conventions: a string is its bytes; a time is nanoseconds since Go's zero time; an int that may be negative is a ℤ;
-- a finite float64 is its whole number of units 2^-1074. Every pointer receiver becomes a state that is passed on.
--
-- Fuel: heap.up has `j + 1` steps and heap.down `n + 1`, and the theorems on the heap's order show that these are
-- enough. The loop of processTask has one step for each attempt. The digits of `n` are written with `n + 1` steps, and
-- each step divides by ten (Intake.Handler.Decimal). The search for a free name of a log file, which has no bound in
-- the source, has one more round than there are files, and Logger.File.Fresh shows that it ends there. All other loops
-- are structural.
--
-- Parameters: json.Unmarshal, json.Marshal, json.Valid and the tokens of json.Decoder, sha256, regular expressions,
-- the formats of a float, os.Stat and the lines of a file, the results of git and of removing directories, whether a log file can be opened or renamed and how much of a line is written, the lines
-- that the agent's process prints and how it ends, strings.ToLower, yaml.Unmarshal, os.Expand, what a webhook answers,
-- time.Parse, and the clock.
--
-- Not modelled: the stores over SQLite and MySQL and the JSON store's file (store/), which are statements for a
-- database engine and input and output; the texts of prompts; the process, settings file and time limits of the agent;
-- logging inside an operation and the console logger; the start of the servers and the shutdown in main.go.
pub mod Prelude
pub mod Intake
pub mod Diagnosis
pub mod Scheduler
pub mod Store
pub mod Amp
pub mod Effects
pub mod Project
pub mod Skill
pub mod Logger
pub mod Main
pub mod Notify
pub mod Api
pub mod Tests
