-- ===== src/Lib.antt =====
-- The Hstong trading SDK for Go: a client of a Gateway that sends HTTP calls (client, internal/resilience,
-- internal/errs), keeps a trading session (internal/session, internal/auth, pkg/hstong/session.go) and reads a TCP
-- stream of notifications (internal/push). On top of these stand services (pkg/services): some
-- check orders before they send them, one walks the pages of fund journals, one coalesces logins, and one
-- shares push subscriptions among callers, routes updates and subscribes again after a reconnect.
--
-- A call goes through client.execute, which picks a circuit breaker by the class of the path, asks it,
-- runs the rate limiter and the transport under the retry policy, and tells the breaker the outcome.
-- The session manager shares one login among its callers. The push client reads frames, verifies their
-- signatures if asked to, decodes them and hands them to bounded queues; it reconnects with growing
-- delays.
--
-- Files and code:
--   Client/Routes: the table of endpoints, Validate and NormalizePath of client/routes.go.
--   Client/Execute: execute of client/client.go. Breakers live in a store, so that two settings may
--     share one; calls of one client run one after the other here.
--   Client/Calls: Do of client/client.go, and the Executor of pkg/services/executor.go that it fills.
--   Resilience/Breaker: internal/resilience/breaker.go; each method is a function of the state that its
--     mutex guards and of the clock's reading, so any sequence of calls is an interleaving of callers.
--   Resilience/Retry: internal/resilience/retry.go. The context, the timer and the random generator are
--     an environment over a world type.
--   Errs: internal/errs/errors.go and the codes of pkg/types/status.go.
--   Transport: classifyFailure, failure, transportError, readError and timeoutSeconds of
--     internal/transport/transport.go; a text is a sequence of runes. Transport/Exchange: its Do.
--   Crypto: internal/crypto/aes.go.
--   Session/Machine: internal/session/state.go.
--   Session/Manager: pkg/hstong/session.go; a call is a thread that runs from one critical section to
--     the next, and a schedule names the thread that goes on and what the Gateway answers it.
--   Session/Gate: Login and Logout of pkg/services/session.go over internal/auth with the store in memory,
--     as threads in the same way; instants are in seconds.
--   Push/Frame: internal/push/frame.go; readers and writers are values, a writer any function that
--     reports what Write reports.
--   Push/Verify, Push/Decode and Push/ReadLoop: internal/push/verify.go, and decodeNotification, Decode
--     and readLoop of internal/push/client.go.
--   Push/Queue: the sends of dispatch and report in internal/push/client.go; a consumer may take entries
--     between their selects.
--   Push/Connection: Connect, Close, closeConn and the dials of Run in internal/push/client.go, as
--     interleaved steps.
--   Push/Backoff: WithReconnect, the normalisation in New, and nextBackoff in internal/push/client.go.
--   Push/Freshness: internal/push/freshness.go.
--   Domain/Order: NextOrderState of pkg/domain/order.go.
--   Domain/Symbol and Domain/Ticks: pkg/domain/symbol.go, hk_price_bands.go and tick_schedule.go.
--   Domain/Price: ValidateOn, Validate, ValidateInteger and ValidateLot of pkg/domain/price.go and
--     quantity.go.
--   Services/Validation: validateOrderForHK of pkg/services/trading.go and the checks that it calls; the
--     time of day in Hong Kong is an argument.
--   Services/Trading: Entrust, CancelEntrust, BatchCancelEntrust, ChangeEntrust and RealCondOrderList of
--     pkg/services/trading.go, and Services/Trading/Queries the other methods, up to the decoding of the
--     reply. Services/Wire: the requests that they send.
--   Services/Push/Keys and Services/Push/Topics: the keys and topics of pkg/services/push.go.
--   Services/Registry: Subscribe, Cancel and dispatchMarket of pkg/services/push.go. What runs under
--     the subscription lock is one step, and the request of Cancel, which follows it, another; the
--     theorems are about calls that come one after the other.
--   Services/Registry/Reconnect: onReconnect, resubscribeAll, killEntry and closeAll of the same file, on
--     the same registry; no call comes in the middle of a reconnect.
--   Services/Account: the queries of pkg/services/account.go, the page size and the walk over the pages of
--     a fund journal.
--   Services/Algo and Services/Futures: every method of pkg/services/algo.go and futures.go, up to the
--     decoding of the reply. Services/Checks: the dates, the times and the digits that they check.
--   Services/Push/Delivery: deliver of both kinds of subscription in pkg/services/push.go.
--   Services/Push/Stream: report and recordUnrouted of pkg/services/push.go; the reader of the stream
--     may take entries between the selects of report.
--   Services/Push/Orders: SubscribeOrders, killOrders and the Cancel of an order subscription.
--   Common: lists, bytes, signed words, decimals and maps; Examples: the theorems at concrete inputs.
--
-- Bounds and fuel: int16, int32 and int64 fields are integers in the range of their word, and the code's
-- conversions, doublings and their overflow are written out modulo the word. Codes of instruments are
-- ASCII. The retry loop's fuel is the number of attempts that the policy allows, enough since each round makes an attempt; the read
-- loop's fuel is any number above the bytes of the stream, enough since each frame takes 151 of them. The
-- walk over a fund journal recurses on the code's own bound, 1000 pages.
-- Instants are counted in nanoseconds from zero and do not run below it.
--
-- Parameters: the HTTP transport, the rate limiter's wait, the RSA check of a signature, the protobuf
-- decoder, the decimal library, AES and base64, HTTP and JSON, the clock, the timer and the random generator.
--
-- Not modelled: logging, metrics and tracing, which only print; generated messages; the field by field
-- mappings of pkg/services, pkg/domain and internal/push/decode.go; the token buckets of the rate
-- limiter, which compute in floating point; the keep-alive loop; the control flow of the push client's
-- Run beyond its dials; the interleavings of the push orchestration's reconnect with other calls; the market
-- service and the assembly in stack.go; the flights of internal/auth itself and stores that fail;
-- the options of internal/transport and the excerpt of a body in its messages.
pub mod Client
pub mod Common
pub mod Crypto
pub mod Domain
pub mod Errs
pub mod Examples
pub mod Push
pub mod Resilience
pub mod Services
pub mod Session
pub mod Transport
