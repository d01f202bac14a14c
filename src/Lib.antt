-- ===== src/Lib.antt =====
-- A model of the streaming backend (backend/app) and of what makes its core correct.
--
-- The program keeps streams running: an operator plans a stream, a launcher starts and stops it when
-- it is due, the control service has systemd run it, the runner writes a heartbeat, polling turns the
-- state of the unit and the heartbeat into the status of the row, and the playlists of a running
-- stream are swapped while it plays. A rate limiter stands before the API, and
-- the address that a stream is sent to is checked first.
--
-- Which file models what:
--   RateLimit   backend/app/middleware/rate_limiter.py: Entry is `RateLimitEntry`, Client the key of a
--               request, Limiter `RateLimiter`, Middleware `dispatch`.
--   Schedule    backend/app/core/stream_schedule.py: Zone the local times, Normalize the settings, Next
--               `compute_next_repeating_start`, Stop `compute_schedule_stop_time`.
--   Stream      the row of backend/app/models/database.py with the mutations of
--               backend/app/services/streams/control_helpers.py.
--   Scheduler   backend/app/services/streams/scheduler.py: `launch` and `stop_due` are a turn of its
--               loops; Rounds has the loops. The control service enters by the record `Runtime`.
--   Heartbeat   backend/app/core/stream_runtime_heartbeat.py.
--   Control     backend/app/services/streams/control.py for streams that systemd runs: Status is
--               `get_stream_status`, Runtime the starting and stopping, and `managed` fills `Runtime`.
--   HotSwap     backend/app/streaming/hot_swap.py: Queue is `SlotQueue` and its player, State the
--               queues of a stream and the manager, State/NowPlaying the report of what plays.
--   Reconciler  backend/app/core/stream_reconciler.py: `reconcile` and `check_periodically` are a turn of its
--               two loops; Rows has a row under everything that the backend does to it.
--   Signals     backend/app/streaming/runtime_signals.py, with the lines of the log as the manager takes them.
--   Manager     backend/app/streaming/ffmpeg_manager.py at one stream: Failure is `_handle_stream_failure`, Stop
--               `stop_stream`, each in the parts between which another task can run.
--   Quota       backend/app/core/quota.py: Limits has the streams that run at once, Daily the usage of a day,
--               Storage the bytes, and Address what `ensure_destination_allowed` lets through.
--   Quality     `evaluate_stream_quality_sync` of backend/app/core/quota_quality.py: Guideline has the table of
--               bit rates of backend/app/streaming/validator.py, Evaluation the violations of each asset.
--   Tokens      the download and upload tokens of backend/app/services/assets/utils.py.
--   Collections backend/app/core/collections.py.
--   Command     backend/app/streaming/command_builder.py, up to the argument of ffmpeg's tee; Quoting is the
--               rule by which ffmpeg documents that the tee cuts it.
--   Planning    the schedule of a request, from `validate_schedule` of backend/app/schemas/api.py to the row
--               that backend/app/services/streams/service.py writes.
--   Sources     what a stream plays: the checks of `create_stream` of backend/app/services/streams/service.py
--               and `extract_stream_assets` of backend/app/services/streams/helpers.py.
--   Folders     backend/app/services/media_folders/service.py: Assets has the links, Invariant every order
--               of requests.
--   Destination backend/app/core/rtmp_url_validator.py.
--   Base        what these share: tests, lists, texts, association lists, the clock, integers.
--
-- State is passed explicitly: a function takes a row, a queue or a table and returns it changed. What a
-- lock makes atomic is one step, and HotSwap/Queue/Steps takes the steps in every order. An exception
-- is a value: a `Result`, an `Attempt` with the row it leaves, a `Turn`, or an error beside the state.
-- Loops are recursion on lists, or on a number that the code itself fixes: the weekly search goes
-- through fourteen days, as the source does; a player's run is given for
-- every number of turns, since the source's loop ends only by an exception or by being stopped.
-- Instants are microseconds, and the rate limiter's ticks of its clock; texts are lists of code points.
--
-- Parameters stand for what is outside: the zone data and `datetime.isoformat`, URL and token decoding,
-- name resolution and the `ipaddress` module, what is on the disk and which writes fail, and what systemd, the quota and the
-- prerequisites of a launch answer. Not modelled are the database, Redis, what ffmpeg does
-- and the part of its command before the outputs, the playlist builder, the recommendations for the quality, the audit log,
-- and the services for assets and administration.
pub mod Base
pub mod RateLimit
pub mod Schedule
pub mod Stream
pub mod Scheduler
pub mod HotSwap
pub mod Heartbeat
pub mod Control
pub mod Destination
pub mod Reconciler
pub mod Signals
pub mod Manager
pub mod Quality
pub mod Quota
pub mod Tokens
pub mod Collections
pub mod Command
pub mod Folders
pub mod Planning
pub mod Sources
