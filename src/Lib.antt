-- ===== src/Lib.antt =====
-- Models of the metaserver worker, a set of Cloudflare Workers that publish a directory of game
-- servers and let clients and servers exchange connection candidates. Paths are from the
-- repository's root.
--
-- Common     tests on native numbers and texts, lists, results. A text is the list of its UTF-16
--            code units.
-- Js         the values that a structured clone holds, with the guards that the source applies to
--            them (src/rendezvous-attachments.ts). Arrays are dense.
-- Contract   src/rendezvous-contract.ts: limits, closes and outcomes. Signals has
--            parseSignalObject and serializeRendezvousSignal between the objects of JSON, with
--            normalizeIpAddress of src/protocol.ts as an argument.
-- Protocol   src/protocol.ts: normalizeIpAddress, with the IPv6 words and the IPv4 octets that it
--            parses and prints. It is what Contract's argument stands for.
-- RateLimit  src/rate-limit.ts. Window has utcDayWindow, boundedRetryAfter and validateWindow;
--            Budget has consumeFixedWindowBudget over the rows of request_budgets, where the
--            platform may fail before or after the statement commits and other requests may run
--            between the two statements; Burst has enforceNativeBurst and enforceSharedIngress,
--            with the limiter as an argument; Errors sorts the failures.
-- Http       src/http.ts: the public errors and their responses; a delay may be any number of
--            JavaScript. Requests has handleRequestError of src/request-errors.ts with the lines of
--            src/diagnostics.ts that it logs.
-- AccessBudget  src/access-budget.ts: consumeAccessBudget over the table access_request_budgets, a
--            function from its primary keys. The DELETE statement may take any of the expired rows,
--            and the batch commits, reports a failure or rejects.
-- Attachments  src/rendezvous-attachments.ts: what a room stores on a hibernatable WebSocket.
--            Codec and ServerCodec are the decoders and encoders, with the codes of Codes and the
--            guards of Guards; Valid says which attachments
--            are valid.
-- Admission  src/rendezvous-admission.ts: RendezvousAdmissionStore over the rows of
--            rendezvous_admissions. Tags has the pattern of the replay tags, Store the methods,
--            Schema what initialize checks, Calls the histories of calls. A room asks the store
--            before it admits a client, and its alarm rings for the store's next expiry.
-- Room       src/rendezvous-room.ts. State is a room's sockets and its in-memory maps; an
--            environment answers each platform call by its number, so that every pattern of
--            failing writes and closes is one environment. Rules has the pure helpers at the end
--            of the file, Teardown has failClient, failServer and closeAllClients, Alarms has
--            expireClients, the retries of pending teardowns and the time of the next alarm.
--            Ownership has reconcileActiveServer and the retirements of controls; Messages has
--            acceptAccessInit, handleClientMessage and beginClientTicket; Relay has
--            handleServerMessage and findTicketClient. Where a handler awaits, it is two functions,
--            and the room may have become any other between them; what the awaited call answered
--            (a digest, whether an access is live) is an argument. Answering false stands for a
--            RendezvousTeardownIntegrityError. A room reads and writes the attachments of
--            Attachments, ends clients with the closes of Contract, and is bounded by its limits.
-- Ranking    src/directory-ranking.ts. The operations of floating-point numbers are a parameter,
--            since every statement holds for any of them; Array.prototype.sort is a stable
--            insertion sort.
--
-- Every loop of the source runs over a list and is structural recursion; no model has fuel. The
-- chain of causes that errorMessages follows is at most four links long, as there.
--
-- Numbers are the non-negative integers. src/rate-limit.ts and the attachment guards refuse every
-- other number before it is used.
--
-- Not modelled: upgrades, the queue in front of the message handlers,
-- publications, publisher authentication, the access tokens and the directory builder, which
-- are other components; routing, metrics and most of the diagnostics, which are input and output.
pub mod Common
pub mod RateLimit
pub mod Js
pub mod Contract
pub mod Attachments
pub mod Ranking
pub mod Protocol
pub mod Admission
pub mod Room
pub mod Http
pub mod AccessBudget
