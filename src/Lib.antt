-- ===== src/Lib.antt =====
-- The alert bot: it reads posts of monitored Telegram channels, decides which users an alert
-- concerns, and sends each of them an alert of up to three stages. The program is several
-- processes that share Redis (streams, a sorted set and keys with a lifetime) and PostgreSQL: a
-- scraper publishes posts to a stream, the worker (alert_bot_project/worker/main.py) turns a post
-- into delivery jobs, and the broadcaster (alert_bot_project/worker/broadcaster.py) delivers them.
--
-- What the program calls is a parameter. Redis is the record `Redis` of Redis.antt: its documented
-- commands with laws for what a later read returns; Redis/Memory.antt is a store that fulfils the
-- laws. Python's and Lua's readers, printers and character classes are the record `Platform` of
-- Shared/Platform.antt, which has no laws. A Lua script is one function of the clock and the store,
-- since Redis runs it at once; a Python function that awaits between two commands takes what other
-- processes do there as a function on the store. Times are natural numbers: milliseconds for the
-- clock of Redis, microseconds for instants, seconds for the scores of the delayed set. Subtraction
-- stops at 0 exactly where the scripts take a maximum with 0.
--
-- Files and the code they are about:
--   Shared/Constants: alert_bot_project/core_shared/constants.py, the limits, delays and texts.
--   Shared/Json: JSON values and `_unique_object` of alert_bot_project/worker/delivery_contract.py.
--   Worker/Job, Worker/Contract: alert_bot_project/worker/delivery_contract.py, with Valid
--     (accepted jobs) and Freshness (delivery_content).
--   Worker/RateLimit: alert_bot_project/worker/rate_limit.py, with Spacing, Pause and Progress.
--   Worker/Lease: alert_bot_project/worker/delivery_lease.py, with Exclusion.
--   Services/Privacy: alert_bot_project/services/privacy.py, with Fence, InFlight, Frame and Erase (Gone, Complete); the
--     registration is alert_bot_project/bot/handlers/start.py.
--   Worker/Broadcaster: alert_bot_project/worker/broadcaster.py. Enqueue is `enqueue_alert` and the
--     fan-out of alert_bot_project/worker/main.py, Mature the transfer of the delayed set, Attempt,
--     Verdict, Admit and Deliver are `_deliver_one` and `send_single_message`, DeadLetter is
--     `_move_to_dlq` and `_finish_failed_job`, Recipient what the scripts read of a payload, Owned the consumer loops and `_deliver_owned` under
--     Worker/Lease.
--   Worker/FanOut: the pages of alert_bot_project/database/crud.py and their loop in
--     alert_bot_project/worker/main.py, with Pages and Complete.
--   Worker/Clear: the record of an all-clear in alert_bot_project/worker/main.py, with Cancels.
--   Worker/Triggers: `_resolve_trigger_words` of alert_bot_project/worker/main.py, with Decision.
--   Scraper/Outbox, Scraper/Catchup: alert_bot_project/scraper/outbox.py and catchup.py, with Rows
--     and Recovered.
--   Scraper/Publisher: alert_bot_project/scraper/publisher.py and the handler and the replay of
--     alert_bot_project/scraper/main.py, with Once.
--   Shared/Places, Shared/TextProcessor, Shared/WordSearch, Shared/TriggerCache: the tables of
--     alert_bot_project/core_shared/constants.py, text_processor.py and trigger_cache.py.
--   Services/Alarm: alert_bot_project/services/ukrainealarm.py, with the poller, which writes the
--     state of the official alarm that alert_bot_project/worker/main.py reads (Fallback, Fresh).
--   Database: the tables of users of alert_bot_project/database/models.py and the statements of
--     crud.py and activity.py; Services/Users is alert_bot_project/services/user_service.py.
--   Bot/Keyboards, Bot/Settings: alert_bot_project/bot/keyboards/builders.py, bot/handlers/settings.py
--     and bot/middlewares/throttling.py.
--   Worker/Source: `process_single_stream_payload` of alert_bot_project/worker/main.py, which composes
--     Shared/TextProcessor, Worker/Clear, Services/Alarm, Worker/Triggers, Worker/FanOut and
--     Worker/Broadcaster/Enqueue, with Acknowledged, Settled,
--     Recipients and Phrases, which puts Worker/Matcher in.
--   Worker/Consume: the loops of alert_bot_project/worker/main.py over the source stream, which hand
--     its entries to Worker/Source, with Kept and Batch. An error that leaves the handling of an entry
--     is a part of what the handling meets, with what was done until then.
--   Worker/Matcher: alert_bot_project/worker/custom_matcher.py. Labels says what a node spells, Grow
--     and Trie are the first loop of `_build`, Fall the following of fallbacks, Links, Queue, Rows and
--     Built the second loop, Bounds and Found `_match`, and Exact and Reload what a call returns.
--   Database/Migration: alert_bot_project/database/migration.py, with Translated, Succeeds and
--     Decided.
--   Shared/Supervision: alert_bot_project/core_shared/supervision.py.
--   Worker/Sync: `sync_global_custom_triggers` of alert_bot_project/worker/main.py.
--   Worker/Retention: alert_bot_project/worker/stream_retention.py, with Owed.
--   Worker/Job/Decimal, Worker/Contract/Identity, Worker/Broadcaster/Enqueue/Accepted: the payloads of
--     the broadcaster as the parser of the worker reads them.
--   Tests: a concrete store, platform and job, and the theorems applied to them.
--
-- Loops: the loop of the rate limiter runs on the list of the delays of its rounds, and its theorem
-- says how many rounds are enough; the wait for deliveries in flight runs on its 350 polls; the
-- heartbeat of a lease on the list of its beats; the loop over the pages of users runs on fuel, and
-- its theorem says that one round more than there are selected users is enough; in Worker/Source that
-- loop runs on a list that says for each page whether the database answers; the scrubbing of a stream
-- runs on fuel, of which one round more than there are entries is enough; the loop of the alarm poller
-- runs on the list of what its rounds meet; the other loops are structural.
--
-- In Worker/Matcher the following of fallbacks has as many rounds as there are nodes, and the queue
-- 2 to the number of nodes, since a node is smaller than its children; `get_matches-Ends` says that no
-- call runs out. The loops of Worker/Consume and Worker/Broadcaster/Owned run on the list of what their reads give.
--
-- Not modelled: logging and metrics, the loading of configuration and secrets, Redis ACLs and TLS,
-- operational scripts and the connections to services, which are input and output; the glue of the
-- bot framework; the Alembic revisions of the database. `_resolve_target_users` of
-- alert_bot_project/worker/main.py and what it calls is not called by the program. Worker/Source takes
-- the phrases that are found as a function of the text; Worker/Source/Phrases puts the matcher there.
pub mod Bot
pub mod Common
pub mod Database
pub mod Redis
pub mod Shared
pub mod Scraper
pub mod Services
pub mod Worker
pub mod Tests
