-- ===== src/Lib.antt =====
-- Verification of the backend: the orders service and the wallet, which hold the money of an order
-- in escrow while its legs are carried out; auth, which says who somebody is; the reviews; and the
-- notifications.
--
-- A client places an order, which has one leg for each kind of work (transport, equipment, labor).
-- An executor accepts a leg: the orders service claims the leg in its table, and calls the wallet,
-- which charges the client and holds the leg's price for the pair of the order and the executor. If
-- that fails, the claim is given back. The executor moves the leg's status until it is delivered.
-- Then the client confirms, and the wallet releases the escrow of each payee, or, before the work
-- begins, the client cancels, and the wallet refunds what is held. Once all legs are completed,
-- the parties review each other, and the reviews service pushes the new rating to auth. The services
-- send events to notifications, which stores them and hands them to the connections of a user.
--
-- A user proves a phone by a code, passes an identity check, which gives a pass, and registers with
-- it. Then he signs in by his phone, and the back office by a password; a session is a short-lived
-- access token, which the guards of all services read, and a refresh token, which is exchanged once.
--
-- Which file models what:
--   Common: the numbers, Go's int64 (Word) and strconv (Strconv), maps (GoMap), SQL tables
--     as lists of rows with the statements that the stores run (Table), and a request handler as a function
--     from the service's state to a result and the next state (Exec).
--   Models: pkg/models. The enumerations have the constructor `other` for any other string.
--   Httpx: pkg/httpx, the error codes and the guards of the routes. A reply is a status and a code.
--     Mux is what the services use of http.ServeMux: patterns, and the one that is the most special.
--     Reply is what WriteJSON and WriteError write.
--   Routes: the tables that the `Routes` methods of internal/*/handler.go register, each route with
--     its guard; Access holds the proofs.
--   Gateway: internal/gateway/proxy.go, the prefixes and the answer to a preflight; Inside holds the
--     proofs.
--   Database: pkg/db/db.go, Connect with its attempts and Migrate with its table of names.
--     Connecting, Names and Migrations hold the proofs.
--   Config, Jwtx: pkg/config and pkg/jwtx.
--   Auth: internal/auth. Otp is otp.go and the codes of store.go, Passes, Sessions and Users are the
--     other tables of store.go, Registry is license.go, names.go and verification.go, and Core,
--     Handler, SignIn and Profile are handler.go. Otp/Attempts and Otp/Overlap have
--     requests that come between the statements of VerifyOTP and of CreateOTP, and their proofs.
--     Otp/Limit, Users/Accounts, the files under SignIn, Requests and Requests/Exchanged hold the
--     other proofs.
--   Reviews: internal/reviews, store.go and handler.go; Ratings and Finished hold the proofs.
--   Notifications: internal/notifications. Hub is hub.go, Feed is store.go and handler.go, and
--     Connection is the handler's `websocket`; the files under them hold the proofs.
--   Svc: pkg/svc/client.go, a call of another service as the caller sees it; Client is Do and
--     parseError over bytes.
--   Wallet: internal/wallet. Store is store.go (Existing, Create, Release, RefundOrder,
--     CommissionPct, MoneyStats), Handler is handler.go (create, release, refund), and Reads is what
--     both files only read. Ledger, Requests, Replies, Repeated, Fresh and Statuses hold the
--     proofs.
--     Contract is the wallet without its rows: one phase for each pair of an order and a payee.
--   Orders: internal/orders. Legs is legs.go, Pricing is pricing.go, Record and Store are store.go,
--     Audience, Handler, Placing and Feed are handler.go (create and estimate are `place` and
--     `estimate_order`), and Dashboard is Stats, ListAll, Backhaul and their handlers. Columns is
--     what Create writes into a row and scanOrder reads from it. Race is accept and cancel as
--     sequences of steps that overlap, each step one statement or one call.
--     Store/Claims, Legs/Progress, Pricing/Split, Pricing/Exact, Escrow and Replies hold the proofs.
--   System: the orders service with the wallet behind the network, and the reviews service with
--     auth behind it (Rated). Payout follows a confirmation to the wallet, and Laws/Overlap the
--     steps of Orders/Race. Wire and Calls are the calls of the wallet over bytes.
--   Examples: concrete orders and ledgers.
--
-- What fails: a statement of the database that fails changes nothing, and a flag of the request's
-- environment says for each statement whether it does. Where a store's function makes two
-- statements without a transaction, the first stays written when the second fails. A call between
-- services is delivered, or the request is lost, or only the reply is lost. Requests run one after
-- the other, but for those of Orders/Race, the guesses at a code (Otp/Attempts) and the requests
-- for one (Otp/Overlap), which overlap; a race for a leg is one conditional UPDATE, which the
-- database makes atomic. What happens to the hub is a list of events: subscribing and leaving hold
-- its lock alone, but publications share it: one that overlaps another is its sends to single channels,
-- one event each.
--
-- Bounds: `format_int` has fuel for 20 digits, and an int64 has at most 19. Connect tries 30
-- times, as in the source. All other loops are structural. Arithmetic on money is int64 with its
-- wrap-around, as in the source.
--
-- Parameters: the product of a float64 and a tariff, rounded, as the floating point unit computes
-- it; the digest that the simulated provider shows as its reference; what auth tells of a user; for
-- the database, what a migration does to the schema and what a NUMERIC column keeps of a weight and a TIMESTAMPTZ
-- column of a time; for auth, SHA-256, the MAC, base64 and JSON of a token, the parsing of a date, the upper case of a
-- text, and what is drawn at random; for a call, JSON and the network.
--
-- Times are nanoseconds, ratings and confidences are hundredths, and a text is a text of characters.
--
-- Not modelled: the proxying of a request and the cleaning of its path, which net/http does; the
-- SQL of the migrations; JSON; the distance on the globe by which return loads are found, which the
-- database computes and which is a parameter; the length of time-outs; the texts of log lines, which
-- only people read, and, but for the calls over bytes, those of errors.
pub mod Common
pub mod Models
pub mod Httpx
pub mod Wallet
pub mod Svc
pub mod Database
pub mod Config
pub mod Jwtx
pub mod Auth
pub mod Reviews
pub mod Notifications
pub mod Orders
pub mod Routes
pub mod Gateway
pub mod System
pub mod Examples
