-- ===== src/Lib.antt =====
-- Miyohub keeps the game accounts of the users of a site, runs their daily tasks, and exchanges points
-- for goods of a shop at a given time. Its core is a store: one state in memory under a lock, saved
-- as one file after every change. This development models that store and proves what it promises.
--
-- The parts and their sources (paths from the root of the repository):
--   * Base: lists, counts, texts, integers and results that the parts share.
--   * Model: internal/model, the records of the state; `State` and `Config` are the roots.
--   * Store/Environment: Unicode tables, the calendar and the hashes, as fields of a record. The
--     models take it as an argument; the theorems on passwords assume that PBKDF2 gives 32 bytes.
--   * Store/Transaction, Store/Atomic: `saveLocked` of internal/store/store.go. An operation is a
--     function from the state to an error or an effect: a reply, a state to be saved with a reply, or a
--     state to be saved with an error. `transact` runs it with the outcome of the disk.
--   * Store/Lookup: the lookups and access tests under the lock (store.go, exchange.go,
--     permissions.go): `userIndexLocked`, `accountRunnableLocked`, `checkExchangeAccessLocked`.
--   * Store/Plans: internal/store/exchange.go, the exchange plans. `Editing` and `Execution` have one
--     function for each operation, `Requests` joins them, `Diagram` is the state diagram of a plan, which
--     they refine by `Lifecycle`, and the other files are proofs about it.
--   * Store/Users: internal/store/store.go, users.go, permissions.go, onboarding.go and password.go:
--     users, sessions and invite codes, in the same shape.
--   * Store/Outbox: internal/store/push_outbox.go and calendar_reminders.go: the queue of
--     notifications, with the reminders that count its outcomes. `Progress` is the diagram of a
--     delivery.
--   * Store/Records: the log and the reads by owner of internal/store/store.go.
--   * Store/Probes: internal/store/captcha_probe.go, the background tests of captcha services.
--   * Store/Accounts: internal/store/accounts.go, account_batch.go and archive.go: the game accounts.
--     `Binding`, `Editing`, `Batch`, `Archives` and `Exports` have the operations, `Steps` joins those that
--     change accounts, and the other files are proofs.
--   * Store/Tasks: internal/store/task_settings.go, internal/model/schedule.go and task_settings.go: the
--     tasks of an account and the daily claim of its automatic run.
--   * Api: internal/api/security.go and archive.go: the rate limits and the previews of archives that
--     the handlers keep in memory.
--   * Store/Calendar: internal/store/calendar.go and calendar_reminders.go: a user's own events, and the
--     reminders that the user adds, with their quotas. `Quotas` joins the requests on them with those of Store/Outbox;
--     QueueDueCalendarReminders is not among them.
--   * Store/Files: internal/store/encryption.go: the key file and the encryption of the state, with AES-GCM
--     and the JSON of the envelope as functions of a record.
--   * Tasks: internal/tasks/options.go and runner.go: the options of a run, and which accounts a batch
--     reserves.
--   * Store/Samples and the Tests files: a small site and runs on it.
--
-- How the code is modelled. A map is a list of entries with one entry for each key, in any order; a
-- time is a natural number of nanoseconds since Go's zero time; an operation reads one time `now`;
-- random texts are arguments. A status text is an enumeration whose `other` stands for every text
-- that the code does not name. The float settings of the shop are whole nanoseconds. Counters and
-- revisions are unbounded, as none comes near 2^63; fields that a request may set are integers. The
-- copies through JSON are the identity. The lock makes each operation one step, so a history is a list
-- of requests, each with the outcome of its save. Every loop is a recursion over a list; there is no
-- fuel.
--
-- Not modelled: the JSON encoding of the state, the defaults for older files, the
-- settings of the site and of captchas, and everything that talks to the network: the handlers of the API,
-- the runners, the shop's engine and the notification services.
pub mod Base
pub mod Model
pub mod Api
pub mod Store
pub mod Tasks
