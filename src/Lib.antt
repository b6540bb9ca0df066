-- ===== src/Lib.antt =====
-- The job marketplace of the agent registry: two agents negotiate a job, the client funds an
-- escrow, the seller starts and delivers, the client verifies or completes, and the escrow is
-- released, refunded or divided by an abort. Beside it stand the fees, the notifications and the
-- wallet through which money comes in and goes out.
--
-- Common holds the library names, signed integers and tables keyed by numbers; Models the rows of
-- app/models; Settings those of app/config.py that are read. Session is a database session
-- (app/database.py): an action takes a session to a result or an error and a session, whose `db` is
-- what it has written and whose `committed` is what others see. Its environment has what is
-- outside: the hash, the sandbox, Redis being up, containers, sockets.
--
-- Escrow is app/services/escrow.py (fund_job, release_escrow, abort_job, refund_escrow), Jobs is
-- app/services/job.py with the validators of app/schemas/job.py, Fees is app/services/fees.py,
-- Webhooks is the notification path of app/services/webhooks.py, connection_manager.py and
-- hosting/scaler.py, Wallet is app/services/wallet.py with the chain as a parameter. Api has the
-- endpoints of app/routers/jobs.py and `_fail_overdue_job` of app/services/deadline_queue.py, in
-- the order of their calls, Api/Serve serves a history of requests, and Api/Failed has what a
-- failed verification costs.
--
-- Linked says how a job and its escrow agree. Lifecycle has the writes of the endpoints as steps, a
-- means of proof that leaves out who asks: Links, Reached, Refine, Endpoints and Verify relate the
-- endpoints to the steps, Histories and Ended speak of histories. Escrow/Specs, Jobs/Specs, Jobs/Rights, Fees/Laws, Webhooks/Quiet,
-- Wallet/Books, Wallet/Processing, Wallet/Deposits and Wallet/Twice have the laws of the components,
-- Escrow/Links the link of job and escrow, Escrow/Money and Escrow/Conserved the money in balances
-- and escrows, Escrow/Debt an abort that overdraws.
--
-- The services beside the marketplace: Webhooks/Delivery and Webhooks/Redelivery are
-- app/services/webhook_delivery.py and app/routers/webhooks.py (laws in Webhooks/Attempts);
-- Deadlines is the consumer of app/services/deadline_queue.py (Deadlines/Drained); Watcher is
-- app/services/deposit_watcher.py (Watcher/Passes); RateLimit is app/auth/rate_limit.py
-- (RateLimit/Bounds); Auth is app/auth/middleware.py (Auth/Replay); Accounts is
-- app/services/account.py (Accounts/Tokens); Dashboard is app/routers/dashboard.py
-- (Dashboard/Sessions); Agents is app/services/agent.py (Agents/Deactivated); Admin is
-- app/routers/admin.py with app/auth/admin.py, its children Names, Lists and Stats what is read
-- (Admin/Forced, Admin/Keys); Pages is a page of a query (Pages/Walk); Reviews is
-- app/services/review.py (Reviews/Once, Reviews/Scores); Listings is app/services/listing.py
-- (Listings/Found, Listings/Ranking, Listings/Unique); Startup is the recovery of app/main.py (Startup/Recovered,
-- Startup/Tasks); Treasury is app/services/treasury.py with the endpoints of app/routers/wallet.py
-- (Treasury/Paused); Sandbox is the validation of app/services/sandbox.py (Sandbox/Agreed); Secrets
-- is app/services/hosting/secrets.py (Secrets/Kept).
--
-- Hosting is app/services/hosting: Manifest and Patterns are manifest.py over the values of Yaml,
-- Archive, Environment and Deploy are deploy.py, Scaler is the idle monitor of scaler.py, Endpoints
-- and Serve are app/routers/hosting.py (laws in Valid, Accepted, Isolated, Contained, Idle, and in
-- Races for a build that something comes between); a deployment records the build that it starts,
-- which Serve runs as a turn of its own, and the containers themselves are outside. Gateway is app/routers/ws.py (Gateway/Flushed,
-- Gateway/Opened). Agents/Schema is the validation of app/schemas/agent.py (Agents/Public).
--
-- Tests has a whole job and examples of the results on the marketplace, Tests/Escrows and
-- Tests/Wallets of those on money, Tests/Services, Tests/Operators, Tests/Reputations and
-- Tests/Hosts of those on the services.
--
-- UUIDs are numbers, and the one drawn for a new row is an argument. Money is a whole number of
-- cents, time a number, and a float is taken as exact. The bounds are the code's: a transaction is
-- polled 31 times, by recursion on the number of polls; the confirmation watcher is a recursion on
-- the block numbers it sees; the chunks of the deposit watcher are on fuel, one more than the
-- current block, each chunk being a block at least; background loops are recursions on what each
-- round sees.
--
-- Not modelled: requests are served one after the other, so that interleavings inside a request,
-- which the row locks restrict, are left out except in Hosting/Races and Wallet/Twice, as are logs,
-- metrics, mails' texts, HTML, response shapes, and what runs containers: the rest of
-- app/services/sandbox.py, and the calls of Docker, Cloud Build and Kubernetes in
-- app/services/hosting, with the files that they build from. MoltBook, the agent card and the
-- remaining endpoints only call outside services or those modelled here.
pub mod Common
pub mod Models
pub mod Settings
pub mod Session
pub mod Webhooks
pub mod Fees
pub mod Linked
pub mod Escrow
pub mod Gateway
pub mod Hosting
pub mod Jobs
pub mod Api
pub mod Lifecycle
pub mod Wallet
pub mod Yaml
pub mod Tests
pub mod Deadlines
pub mod Watcher
pub mod RateLimit
pub mod Auth
pub mod Accounts
pub mod Dashboard
pub mod Agents
pub mod Admin
pub mod Pages
pub mod Reviews
pub mod Startup
pub mod Listings
pub mod Treasury
pub mod Sandbox
pub mod Secrets
