-- ===== src/Lib.antt =====
-- panmail is a mail gateway for many tenants: an API over which mail is sent, a queue that
-- retries it, providers that deliver it, filters that may hold it for review, webhooks that
-- report what became of it, and workers that keep all of that in bounds. This library models the
-- parts of it that decide something, one module for each, with the theorems about them.
--
-- The parts meet as follows. A call of the API passes the authorization table (Access). A send is
-- admitted by the rate limiter (RateLimit), then screened by the tenant's rules (EmailFilter),
-- which deliver it, refuse it or hold it; a held message waits in the review queue
-- (EmailFilter.Review) until a reviewer or a sweep decides it. A send that repeats an earlier one
-- is answered with its message (Idempotency). A queued message waits in a table (Outbox) and is
-- sent by the queue worker (Queue), one delivery pass at a time (Delivery), to the recipients
-- that its lists resolve to (Recipients), through a provider that its sender may use (Senders).
-- What a provider answers is classified (Bounce); what happens to a message is reported to the
-- tenant's endpoints by the webhook worker (Webhook). Values that are costly to fetch are kept in
-- a bounded cache (Cache). How long all of it is kept is one policy (Retention).
--
-- Base holds what the modules share: Boolean tests and lists over the native numbers, integers
-- (Base.Int), texts as byte lists (Base.Text), and Go maps as association lists (Base.Dict).
--
-- RateLimit models internal/ratelimit/limiter.go. The Limiter with its buckets is a record;
-- Allow, AllowAll, ReserveAll, Cancel, Forget and Tracked are allow, allow_all, reserve_all,
-- cancel, forget and tracked; bucketFor, evictIfNeeded and assess keep their names. A balance is
-- an exact integer in units of one part of a window in place of a float, so that a refill is
-- exact; the clock is an argument. Rate bounds what is granted, Retry says when a refusal ends,
-- Atomic and Undo speak of batches and reservations, Steps of every history.
--
-- Access models internal/auth/middlewares/policy.go and rbac_interceptor.go, with the roles and
-- scopes of internal/auth/entities: procedurePolicy is policy, authorize, authorizeAPIKey and
-- authorizeUser are authorize, authorize_api_key and authorize_user, NormalizeScopes is
-- normalize_scopes. A procedure is a constructor for each constant of the table, and another for
-- any other name.
--
-- EmailFilter models internal/emailfilter: message.go in EmailFilter, condition.go in Condition
-- with Validate in Condition.Valid, rule.go in Rule with Validate in Rule.Checked. Regular
-- expressions are an argument, since Go's regexp is not part of the program. Evaluate sorts by a
-- stable insertion sort, which has the result of sort.SliceStable. EmailFilter.Review models
-- quarantine.go, review.go, expiry.go and the statements of stores/postgres/quarantine.go: each
-- statement is one step on the table, and the calls of the pipelines and of the notifier form a
-- log. A sweep takes the ids it read as an argument, so that what happens between its read and
-- its update is covered; an update whose row cannot be read back and the prune of decided rows
-- are covered too.
--
-- Bounce models pkg/emailutil/bounce.go: ClassifyError with its lists of wordings, its regular
-- expressions an argument.
--
-- Webhook models internal/webhook/worker/delivery.go and durable_worker.go: nextAttempt,
-- retryable, attempt, reschedule, finish and release in Webhook, and bySubscription, startWindow,
-- backOff and the goroutine of a group in Webhook.Batch. A group is a sequence of rounds; its
-- clock, the answers it gets and whether it may start a round are functions. Retry delays are in
-- seconds. What an attempt makes of a row is attempt; whether that is saved is a matter of
-- Webhook.Retries.Life.
--
-- Recipients models internal/email/usecases/recipients.go, and Senders
-- internal/email_provider/senders/senders.go; the address parser of the gsmail library is an
-- argument.
--
-- Delivery models doSend and finishedFrom of internal/email/usecases/send_email_usecase.go with
-- send_recipient_failures.go and send_suppression_delivery.go: Delivery.Providers the choice of
-- providers, Delivery.Attempts the loops over recipients and providers, Delivery.Send the chain
-- of lookups around them. The history of a message is the list of its events. What the pass asks
-- of others (rendering, pacing, suppressions, the answers of providers) is the record
-- Surroundings.
--
-- Queue models internal/email/usecases/queue_worker.go and queue_worker_lease.go: handleFailure,
-- handleRecipientFailures and reschedulePaced in Queue.Handlers, processEmail and bookkeep in
-- Queue.Worker. Queue.History strings the passes of one message together, with the events that
-- each leaves read by the next; a pass may be cut short anywhere, any event may fail to be
-- written, and any history to be read.
--
-- Outbox models internal/email/repositories/stores/postgres/outbox_store.go with its statements:
-- the table is a list of rows and each statement a step on it. Outbox.Others is what other
-- workers may do while a lease runs, and Outbox.Held is internal/email/usecases/release_held.go:
-- what a review does to a message that it holds.
--
-- Idempotency models internal/email/usecases/send_idempotency.go with its statements: the table
-- of keys is a function of tenant and key, and the sends of any number of gateways are a sequence
-- of its writes.
--
-- AttemptLimiter models internal/auth/usecases/attempt_limiter.go: its records stand in a heap,
-- since the map, the recency list and the attempts under way share them. AttemptLimiter.World is
-- the limiter among the sign-ins that use it.
--
-- Admission models SendEmail of internal/email/usecases/send_email_usecase.go as a client calls
-- it, with send_rate_limit.go, attachments.go, reply_headers.go and filter_projection.go beside
-- it and Screen of internal/emailfilter/screen.go: Checks is what needs the request alone, Rate
-- the ceilings, Charged what they come to, Content the template and the filter, Send the order of
-- it all and the writes. It is composed from the models of the parts that it calls; the stores,
-- the parsers and the renderer are fields of Gateway.
--
-- Events models RecordEvent of internal/event/usecases/process_event_usecase.go, which every
-- outcome of a message passes: an event is completed from the stored message (Complete), written
-- (Record), and may suppress its recipient, as the classification of its error says (Bounce). The
-- store is a record of functions, whose promises are IsLawful of Events.Lookup.
--
-- Cache models pkg/cache/ttl_cache.go, and Retention internal/retention/policy.go, where the
-- calendar of AddDate is an argument, with the worker of internal/retention/worker.go in
-- Retention.Worker.
--
-- Loops over lists are structural recursion; no definition runs on fuel. Mutexes are modelled by
-- taking one operation at a time. Integers of Go stand as unbounded integers or numbers; where a
-- bound matters it is stated. Logging is left out. Not modelled are the transports and storage
-- engines, the HTTP, SMTP and SQL libraries, the generated API, the web client and the site, and
-- the parts that the manifest lists as planned.
pub mod Access
pub mod Admission
pub mod AttemptLimiter
pub mod Base
pub mod Bounce
pub mod Cache
pub mod Delivery
pub mod EmailFilter
pub mod Events
pub mod Idempotency
pub mod Outbox
pub mod Queue
pub mod RateLimit
pub mod Recipients
pub mod Retention
pub mod Senders
pub mod Webhook
