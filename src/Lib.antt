-- ===== src/Lib.antt =====
-- Verification library of the WhatsApp messaging API: an HTTP API and a worker that queue outbound
-- messages, send them through Meta, apply status webhooks, and share an agent inbox per tenant.
--
-- The parts and how they interact. The API stores a message with an outbox event, which the outbox
-- publisher (src/outbox/outbox-publisher.service.ts) puts in a queue per traffic class
-- (src/queue/messaging-queue.service.ts). The worker hands each delivery to the dispatcher
-- (src/worker/message-dispatcher.service.ts), which claims the row under a lease, awaits a slot of the
-- rate limiter (src/worker/distributed-rate-limiter.service.ts), sends, writes the outcome back and
-- answers ack, retry, defer or dead; the queue settles the delivery by that answer. Meta reports the
-- fate of a message by webhook (src/webhooks/webhook-status.service.ts). A trace carrier travels with
-- the job (src/observability/trace-context.service.ts). The inbox (src/inbox) assigns conversations
-- to agents. A campaign (src/campaigns) turns an audience into recipients, which
-- processors claim under leases and turn into messages. Files that tenants upload (src/media) are
-- checked against the structure of their content type, scanned, registered and handed to Meta.
--
-- Files:
--   Base        tests on numbers and texts, lists, membership, JSON values, tables of rows by id
--   Message     the Message and MessageStatusEvent rows of prisma/schema.prisma, find and update
--   Dispatch    `dispatch`, `claimMessage` (claim_message), `markFailed`, `markRetryableFailure`,
--               `markRetryExhausted`; Lease: workers that interleave; Outcome and Redelivery: what a
--               dispatch leaves and what the next one finds
--   Outbox      src/outbox/outbox-publisher.service.ts; Steps: what its workers interleave; Published
--               and Unclaimed hold the proofs
--   Queue       publication, parsing, names, delays, prefetch; Delivery: `processDelivery`; Settled:
--               what settles a delivery; Routes: which queues lead back to the consumer; Retries: a
--               message followed through its redeliveries, as the broker makes them from the
--               topology: an expired message moves on with its content and headers
--   RateLimiter the Lua script (reserve_slot), the limits and the waiting loop; Window: the counts of
--               a window; Progress: the loop ends
--   Webhook     the parsing of a status payload; Apply: `applyStatus`; Progress: statuses only advance
--   Trace       patterns, `parseCarrier`, sampling flags; Carrier: round trip and validity of a carrier
--               whose JSON is a tree, its text being left out
--   Inbox       the rows of the inbox; Admission: inbox-capacity-admission.ts and
--               inbox-skill-admission.ts; Assign: claim, release, update of the read mark; Route:
--               `routeConversation`; Update: `updateConversation`; Operations: these as one step;
--               Inversion, Rows, Admitted, Claimed, Candidates, Routed, Routing, Capacity, Unloaded,
--               Released, Updated and Isolation hold the proofs
--   Campaign    the rows of src/campaigns, pause, cancel, fail and refresh (campaigns.service.ts);
--               Launch: its requests; Processor: campaign-processor.service.ts; Steps: what workers
--               and requests interleave; Settled, Moves, Completion, Claims and Stuck hold the
--               proofs
--   Media       a file and its bytes, `readExactly` (Reads: the loop behind it), and one module for each
--               structure: Aac, Amr, Mpeg (media-audio-structure.ts), Ogg with Crc and Opus (the same
--               and media-ogg-opus-profile.ts), Png and Jpeg (media-image-structure.ts), IsoBmff
--               (media-isobmff-structure.ts), Pdf (media-pdf-structure.ts), Ooxml and Signature
--               (media-content-signature.ts); Policy: media-upload.policy.ts; Upload: `upload` of
--               media.service.ts. Checks, Walk, Frames and Local are the loop over units of a file
--               that the parsers share, with its lemmas; Adts, Rows, Lengths, Serial, Pages, Stream,
--               Ending, Directory, Headers, Boxes, Steps, Chunks, Cleared and Settled hold the proofs
--
-- Conventions. A database transaction is one step on the tables, since the source locks the row it
-- works on; interleavings of workers are sequences of such steps. Ids are numbers, as the source only
-- compares them; a text is a list of code units; lower-casing covers ASCII, the only letters of the
-- words that are compared. Instants are milliseconds as natural numbers, and numbers that the
-- configuration gives are whole; shares of the rate limit are thousandths. What the environment
-- answers (sender, Meta, broker confirmations, the handler) is a parameter of the definitions.
-- Audit rows are kept without their metadata. A file is the list of its bytes, each below 256 where a
-- theorem needs it, and does not change while it is checked; `Buffer` numbers are natural numbers with
-- the masks and shifts written as the source has them or as division and remainder. Decoding as UTF-8
-- and `String.trim` are parameters.
--
-- Fuel. `wait_for_slot` takes the number of rounds and is shown to end in three for a worker alone;
-- `follow` takes the number of deliveries and is shown to need one more than the delays left.
-- The parsers take as fuel the largest count of units that the source itself admits (MAX_PAGES and the
-- like), so that running out is the source's own refusal; `read_loop` takes the number of bytes still
-- wanted, since every read that goes on gives at least one.
--
-- Not modelled: connections and channels of the broker, Redis and the database, their failures other
-- than those that a parameter names, spans, metrics and logging, the listing queries, and the
-- components that the manifest lists as not modelled.

pub mod Base
pub mod Media
pub mod Message
pub mod Trace
pub mod Dispatch
pub mod Inbox
pub mod RateLimiter
pub mod Queue
pub mod Webhook
pub mod Campaign
pub mod Outbox
