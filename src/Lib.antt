-- ===== src/Lib.antt =====
-- Dragnet reviews pull requests with language models. This library models the parts that decide which
-- scan runs, what its end is taken to mean, and whether a branch may merge.
--
-- A scan is admitted to a durable queue. A worker claims the job under a lease, the scan takes the
-- lock of its pull request, its steps run in a pipeline that retries, providers that fail often are
-- skipped by a circuit breaker, the end of the scan is classified and stored, and the merge gate reads
-- what is stored.
--
-- - Prelude: Boolean tests, lists, dictionaries and texts that the other files share.
-- - Database: the interface of a table of rows, an argument of every operation that queries one, with
--   the documented behaviour of find, count, update and create as its laws. ListTable fills it.
-- - Runs: src/lib/reviewFreshness.ts (the guard, the rows of runs, reuse of a review, reports, the active
--   scan), src/services/runReaper.ts and src/lib/prRevisionStatus.ts.
-- - ReviewLocks: src/lib/reviewLocks.ts. The map, the deferred aborts and the abort controllers are the
--   record Locks; an operation takes it and returns it. Concurrent calls are sequences of steps,
--   one for each stretch of code without an await.
-- - ScanQueue: src/services/scanQueue.ts (admission, claiming, leases, release, cancelling, retrying and the
--   worker's tick). The loop of a claim runs on fuel, one more than the queued rows, since each round
--   excludes a row. Claim has a call of claimNextScanJob without interruption, Interleaving the same call query by
--   query, with other workers between any two of them. The worker is a state machine, in which a tick gives way to
--   other events at each await.
-- - ProviderHealth: src/lib/providerHealth.ts, its file being a dictionary.
-- - StepPipeline: src/services/stepPipeline. A step is a function on a state of the caller's choice that
--   returns or throws; the retry loop is recursion on the attempts left.
-- - MergeGate: src/lib/mergeReady.ts, reviewStale.ts, chunkCoverage.ts and cacheEligibility.ts.
-- - ScanOutcome: src/lib/scanTerminalOutcome.ts, its long function cut into one function for each stage.
-- - LargePrReview: src/services/largePrReview/chunker.ts (chunkDiff).
-- - ChunkRuns: src/services/largePrReview/orchestrator.ts (the loop over the chunks, retryFailedChunks) and
--   aggregator.ts. The runner of a chunk is a parameter that takes and returns the state of the world.
-- - Reconcile: src/services/largePrReview/reconcile.ts and fingerprint.ts, over a table with ids
--   (Database.Keyed), in which an update of a missing row throws.
-- - PrStacks: src/lib/prStackTopology.ts. The walk down a stack is recursion on the source's own ceiling, one
--   more than the pull requests.
-- - ScanGates: src/lib/scanPrelude.ts. What the index and the indexing answer are parameters.
-- - Checkpoints: src/services/durableScanState.ts (persistReviewCheckpoint, readLatestReviewCheckpoint), over a
--   table that is a parameter with its unique key as a law.
-- - FailureClassifier: src/lib/failureClassifier.ts. A thrown value is a record of what the code reads of it.
-- - ProviderChain: the step "LLM review" of src/services/reviewService.ts, the loop over the chat providers, with
--   beginProviderAttempt and completeProviderAttempt of src/services/durableScanState.ts. The conversation with a
--   provider is a parameter that takes and returns the state of the world.
-- - TipReady: src/lib/tipReadyAfk.ts, over the queue's jobs, a table of pull requests and git, which is a parameter
--   that takes and returns its state.
-- - Rejects: src/lib/skepticRating.ts. Sets are lists, and the survivors are an integer.
-- - Stability: src/lib/stabilityScore.ts. The numbers of the weights are a parameter without laws.
--
-- Dates are milliseconds since an epoch, as natural numbers, and the clock is an argument. Ratings and
-- counts are natural numbers. Not modelled: the timers and heartbeats of the worker, the preparation of
-- large reviews, calls of providers, files, HTTP routes and the web interface, log lines and the texts
-- of messages.
pub mod Prelude
pub mod Database
pub mod Runs
pub mod ReviewLocks
pub mod ScanQueue
pub mod ProviderHealth
pub mod StepPipeline
pub mod MergeGate
pub mod ScanOutcome
pub mod LargePrReview
pub mod ChunkRuns
pub mod Reconcile
pub mod PrStacks
pub mod ScanGates
pub mod Checkpoints
pub mod Stability
pub mod FailureClassifier
pub mod ProviderChain
pub mod TipReady
pub mod Rejects
