-- ===== src/Lib.antt =====
-- Verification of sendplane: the delivery of campaigns and transactional mail, from the rows of the
-- store to the result of an attempt.
--
-- Parts and their interaction. The store keeps, per tenant, the delivery rows with their leases,
-- the attempts, the campaigns and the outbox. Workers (`internal/sender`) claim due deliveries for
-- the running campaigns, process each and commit the results; a delivery that is retried stands in
-- the store again with a later time. The control plane (`internal/control`) starts, pauses,
-- resumes, cancels and retries campaigns, and its loops promote scheduled ones, complete finished
-- ones, cancel rows in chunks, delete old rows and dispatch the outbox to the host. Mail goes out
-- under an envelope address that names its delivery (`internal/tracking`); a bounce comes back to
-- it, ends the row, and puts the address on the lists that the sender asks before it offers a
-- message (`internal/bounce`). The DNS checks (`internal/dnscheck`) tell whether a domain lets the
-- relay send for it.
--
-- Files:
--   Common          lists, maps, sorting, machine integers and texts that the parts share
--   Store           the types of `store/enums.go`, `errors.go`, `time.go`, `delivery.go`,
--                   `campaign.go`, `outbox.go`
--   Memstore        the tenant's data and the provider's check (`store/memstore/memstore.go`)
--   Memstore/Deliveries
--                   `deliveryRepo` and `attemptRepo` of `store/memstore/delivery.go`: Rows (filters,
--                   truncation), Claim (`Claim`), Insert (`InsertBatch`), Complete (`Complete`,
--                   `MarkSent`, `markTerminal`, `setFirst`), Bulk (`ReleaseExpiredLeases`,
--                   `BulkTransition`, `Requeue`, `DeleteBefore`, `CountByStatus`); the other files
--                   there hold proofs and the predicates they speak of
--   Memstore/Campaigns, Memstore/Outbox
--                   `store/memstore/table.go` for campaigns and `outboxRepo` of
--                   `store/memstore/repos.go`; Events holds the proofs
--   Memstore/Locks  `store/lock.go` and `lockRepo` of `store/memstore/repos.go`; Exclusion holds the
--                   proofs
--   Memstore/Suppressions, Memstore/Aged
--                   `store/suppression.go`, and `suppressionRepo` and `deleteBefore` of
--                   `store/memstore/repos.go`; Dropped holds the proofs
--   Sender/Policy, Classify, Health, Results, Process
--                   the files of `internal/sender` with these names; Retry, Replies, Attempts,
--                   Circuit, Outcomes and Suppression hold the proofs
--   Mbhealth        `internal/mbhealth/mbhealth.go`; Outages holds the proofs
--   Control/Campaign, Control/Retry
--                   `internal/control/campaign.go` and `events.go`
--   Control/Loops   `internal/control/campaign_loops.go` and `loops.go`
--   Control/Walk    `eachCampaign` of `loops.go`, and the ticks of the scheduler and the canceller that
--                   are walks; Paging, OnePass, Ticks, Promotion and Schedule hold the proofs
--   Control/Maintenance
--                   `internal/control/maintenance.go`; Kept, Retention, Expiry and Drained hold the proofs
--   Control/Dispatch
--                   `internal/control/outbox.go`
--   Tracking/Verp   `internal/tracking/verp.go`; RoundTrip holds the proofs
--   Bounce/Types, Bounce/Handle
--                   `internal/bounce/process.go` and `platform.go`, on the `Parsed` of `parse.go`;
--                   Effects, Ends, Redelivery, Listed and Retained hold the proofs
--   Dnscheck/Address, Terms, Spf
--                   `internal/dnscheck/spf.go`: the addresses of Go's `net` that it uses, the terms of
--                   a record, and the evaluation; Budget, Memo, Ends and Verdicts hold the proofs
--   Control/Evolution, Lifecycle, LoopSteps, Interleaving, Completion, Chunks, Cancels, DeadLetter
--                   the proofs on the control plane
--   Tests           runs of the definitions, and the results at concrete inputs
--
-- Correspondence. A function of the program is a function of the same name, in small letters. A
-- method of the store takes the tenant's data and returns an error or the new data with its result;
-- it holds the provider's mutex, so one call is one step. A call that fails leaves the data as they
-- were. The exceptions are a retry, a walk over campaigns, a deletion in chunks and the handling of
-- a bounce, which keep what they have done before the error: their results hold the data and the
-- error. A reading of the clock is an argument, as is what a random number, a template engine, a
-- relay or a callback of the host returns: `World` holds the answers of one run of `process`, and
-- its effects are what it does in turn. `NewID` is the parameter `new_id` of the data,
-- `json.Marshal` the parameter `marshal`, HMAC-SHA256 the parameter `hmac`, `NormalizeEmail`, which
-- rests on packages outside the repository, the parameter `normalize`. The DNS is a `Resolver`, one
-- fixed answer for each question.
--
-- A call of the control plane reads the campaign's row and acts on it later. It is therefore two
-- definitions, `start_read` on a given row and `start_campaign` that reads it; an interleaving of
-- calls is a sequence of steps that read rows and of steps that act on any row read before.
--
-- Representation. A time is a number of nanoseconds since Go's zero time, which is 0; durations are
-- not negative. A map is an association list without repeated keys, and its order is the order in
-- which one run over the Go map goes. The sort is a stable insertion sort. Text is a native string,
-- the text of a reply a list of its bytes. The jitter is an exact fraction where the code has a
-- float.
--
-- Bounds. `retry_chunks` takes the number of chunks that are left; the code's is
-- `max_retry_chunks`, 1000 of them. They are enough if the filter selects at most that many chunks
-- of rows. The evaluation of SPF takes the number of levels that are left, `max_spf_depth + 1` at
-- the start; the code refuses the level after these as well. `each_campaign` takes the number of
-- pages that are left; one more than the campaigns that are listed at first is enough. All other
-- recursion is on lists.
--
-- Not modelled: the SQL and Mongo stores (a database runs their queries), the HTTP API, rendering,
-- DKIM, tracking links, the MIME parsing of bounces, the other DNS checks, the worker's goroutines,
-- connection pool and rate limiter, the leader election around its lock, the loops over tenants,
-- and the pages of the finalizer, whose body is modelled for one campaign. The texts of errors are
-- kept only where a row stores them.

pub mod Common
pub mod Store
pub mod Memstore
pub mod Sender
pub mod Mbhealth
pub mod Dnscheck
pub mod Tracking
pub mod Bounce
pub mod Control
pub mod Tests
