-- ===== src/Lib.antt =====
-- Verification of the travel-photo AI server: the task and job managers of app/jobs, the worker's
-- runner of app/worker, and parts of the photo pipeline of app/pipeline, of the story of app/story and
-- of the search of app/search.
--
-- Parts and files
-- - Prelude: numbers, tests and lemmas that all parts share.
-- - Schemas and Errors: the codes and exceptions of app/core/errors.py and the statuses of
--   app/schemas/task.py.
-- - Tasks: the v1 manager. TaskStore (app/jobs/task_store.py) is the list of its tasks in insertion
--   order; TaskService (app/jobs/task_service.py) is a function for each method, and the worker
--   (app/jobs/worker_client.py) is an argument: what it answers for each trip, and the clock.
--   Tasks.Methods has the methods, Tasks.Counts, .Invariant, .Dispatch, .Keeps and .Watchdog the
--   proofs, Tasks.Calls any sequence of calls and Tasks.Waits the waiting POST.
-- - Jobs: the v2 job store on Redis, RedisJobStore of app/jobs/redis_store.py, with the records of
--   app/jobs/models.py, the limits of app/jobs/config.py and the counters of
--   app/observability/metrics.py. Jobs.Store is the key space, Jobs.Updates is `change` with its
--   updates, Jobs.Methods the methods, Jobs.Claim the loop of `claim`, Jobs.Photos the photo
--   batches, Jobs.PhotoMetrics the measurements of photos and stages, and Jobs.Config the validator
--   of the settings. Jobs.Steps makes each transaction a step of one relation, for any number of
--   API replicas, runners and publishers; Jobs.Sound, .Slots, .Ended, .Final, .Termination,
--   .Contracts and .Endings are about it. Jobs.Intake is the receiver and the loop of
--   app/jobs/kafka.py, Jobs.Publishing the passes that publish results there, Jobs.Execution the child process of app/jobs/execution.py with its handler as
--   a tree of calls, and Jobs.Runner the supervision of app/jobs/runner.py.
-- - Gate: RequestGate of app/jobs/gpu_requests.py, on the sorted sets of Jobs.Zset.
-- - Worker: Runner of app/worker/runner.py as moves of the router and of the executor's thread.
-- - Pipeline: the photo states of app/pipeline/state.py, the filter of
--   app/pipeline/steps/filtering.py, the times, positions and places of app/pipeline/steps/clock.py,
--   locating.py and clustering.py, the places that app/pipeline/steps/assigning.py gives to photos
--   without a position, and the checks of the loop and of the candidates that
--   app/pipeline/steps/finalizing.py makes of what the filter leaves.
-- - Story: the candidates and the choice of photos of app/story/selection.py.
-- - Search: relative dates and times of the day, of app/search/dates.py and app/search/times.py.
-- - Tests, Tasks.Tests, Jobs.Tests, Pipeline.Tests, Story.Tests and Search.Tests run the
--   definitions on concrete inputs.
--
-- How code and model correspond
-- A transaction under WATCH and MULTI is one function of the store at one Redis time: an attempt
-- that meets a WatchError has written nothing and is made again. Sorted sets follow the Redis
-- commands: distinct members by score, then by text. Times and durations are microseconds in ℕ; a
-- difference is compared as a sum, so nothing is cut off at 0. A job's request and result stand by
-- their text and their counts. What pydantic, the JSON encoder, SHA-256, OpenCV and imagehash
-- compute is an argument: the record Codec, the function sha256, the size of a buffer, and the
-- measurements with their comparisons. A method of the task service runs to its end in one piece;
-- the await inside the dispatch is taken apart in Tasks.Calls only.
-- The readiness of the worker that a submission awaits is asked in that piece, and the time at which a
-- watchdog tick ends a task is that of the tick. The transactions of one run of recover are one step
-- at one time, so the states between them are not states of the model, and what others do between two
-- attempts of a claim is not in its loop.
--
-- Bounds and fuel
-- dispatch_loop has one more fuel than there are queued tasks: each round ends or takes one out of
-- the queue. claim has two more than the queue is long: a round that goes on has dropped stale
-- slots, which happens once, or an entry. The rounds of assign_unlocated have one more fuel than
-- there are photos without a place: a round that goes on has placed one. The loop of
-- consume_requests runs over the rounds that it is given, each with what Redis and the broker answer,
-- and three answered ones are enough. The decimal text of a number has fuel for its digits.
--
-- Not modelled
-- Logs, HTTP, the connections to Kafka, S3 and model calls; the estimate of a clock from pairs of
-- photos, the rest of FINALIZING, the other
-- pipeline steps, the other parts of the story and of the search, and the agent; the shutdown of the
-- worker's runner.
pub mod Prelude
pub mod Errors
pub mod Gate
pub mod Jobs
pub mod Pipeline
pub mod Schemas
pub mod Search
pub mod Story
pub mod Tasks
pub mod Tests
pub mod Worker
