-- ===== src/Lib.antt =====
-- The Mini Stock Exchange Platform: a set of Python services around an in-memory matching engine.
-- The Order Service validates an order, has money or shares reserved for it and publishes
-- order.accepted; the matching engine matches it and publishes trade.executed, order.cancelled and
-- cancel.rejected; the Order, Account, Portfolio, Market Data and Notification Services consume
-- these events. A gateway stands in front of all of them. Delivery is at least once, so the
-- consumers are meant to be idempotent.
--
-- Money models libs/common/money.py: a Decimal is a coefficient and a number of decimal places, an
-- amount is an integer number of ten-thousandths. What Decimal(str(value)) reads from a text is
-- the Python library's and comes as a value. Events.Once models seen_event and
-- mark_event_processed of libs/common/redis_client.py and the work that commits with its
-- processed_events row; what a database's constraints refuse at commit is a parameter there and a
-- definition for each service. Redis may lose or gain markers at any time.
--
-- Engine models services/matching-engine/app: Engine.Book the order book (OrderBook, rest, cancel,
-- best_bid, best_ask, aggregate), Engine.Match the function match with make_trade, Engine.Desk the
-- consumers handle_order_accepted and handle_cancel_requested of handlers.py, Engine.Desk.Rebuild
-- rebuild_book of main.py, and Engine.Snapshot the snapshots of routes.py. A BookOrder is a shared
-- object in the source; here the levels and the index each hold its value. A price level is a list
-- whose head is the front of the deque. The loops are recursion on the list of levels and on a
-- level, so no fuel is needed: a resting order that keeps shares ends the loop over its level,
-- because the incoming order then has none. The lock of a symbol is held from the look-up to the
-- last write, so a handler is one step. Engine.Match.Trades, Engine.Match.Priority,
-- Engine.Invariant, Engine.Validity, Engine.Gone, Engine.Desk.Memory, Engine.Desk.Deliveries and
-- Engine.Desk.Gone hold the proofs.
--
-- Orders models services/order-service/app: Orders.Status the status machine and its rows
-- (models.py, transition of service.py), Orders.Fills the three consumers of handlers.py,
-- Orders.Evolution, Orders.Fills.Moves and Orders.Fills.Handlers what they may do to a row,
-- Orders.Reconcile startup_reconciliation of handlers.py, and Orders.Listing what the routes of
-- routes.py show to a user.
--
-- Orders.Place and Orders.Place.Saga model validate, reserve, release, _reject and place_order of
-- services/order-service/app/service.py as one run against an Outside, which holds what the other
-- services, Redis and the broker answer and whether the commits after the reservation work;
-- Orders.Cancel models cancel_order of routes.py. Orders.Place.Repeatable and Orders.Place.Outcome
-- hold the proofs about the saga.
--
-- Accounts models services/account-service/app: Accounts.Bank the tables, the helpers of repo.py
-- and the routes that change money, Accounts.Settle the consumers of handlers.py, Accounts.Views
-- the routes that show the balance and the transactions; Accounts.Cash, Accounts.Backing,
-- Accounts.Holds and Accounts.Ledger hold the proofs. An amount there is a natural number of ten-
-- thousandths. release_reservation gets the reservation that it has read before the lock.
--
-- Portfolio models services/portfolio-service/app: the tables of models.py, the two consumers of
-- events.py and the reservation routes of main.py, each as one step of a Portfolio, where a change
-- that a constraint refuses is not committed and release_shares gets the reservation that it has
-- read before the lock; Portfolio.Valuation is _get_portfolio. Portfolio.Shares, Bounds, Reserved
-- and Kept hold the proofs. Market models services/market-data-service/app: handle_trade,
-- upsert_candle and floor_bucket of events.py, and Market.Fill get_market_candles of main.py,
-- whose inner loop has the source's own bound of 1000 points as its fuel; Market.Quotes is
-- warmup_cache and the routes for symbols, quotes and trades of main.py, and Market.Feed the live
-- feed of ws.py and ws_market.
--
-- Events.Lock models distributed_lock of libs/common/redis_client.py for one key; the handlers
-- that hold it are one step elsewhere. Notification models services/notification-
-- service/app/handlers.py, and Notification.Inbox the routes of routes.py. Broker models consume
-- of libs/common/events.py for one queue, with RabbitMQ's part in Broker.Steps as a step relation
-- and Broker.Life the life of one message. Client models call_service of
-- libs/common/http_client.py, where the callee's answer to each attempt is a parameter and the
-- loop recurses on the attempts left. Security models libs/common/security.py, with the JWT
-- library as a parameter.
--
-- Gateway models services/gateway/app: Gateway.Breaker the circuit breaker of proxy.py for one
-- upstream, with times in milliseconds, Gateway.Routing resolve of routing.py, Gateway.Auth
-- auth.py, Gateway.RateLimit enforce of ratelimit.py with the keys of Redis, Gateway.Proxy forward
-- of proxy.py and the route proxy of main.py, Gateway.Proxy.Bulkhead the semaphore of overlapping
-- requests, and Gateway.Bridge the connections that ws_proxy.py counts, where the number of
-- bridges that wait for accept at a time is a parameter. Gateway.Proxy.Identity and
-- Gateway.Proxy.Guards hold proofs. Texts are lists of code points (Base.Text).
--
-- Users models services/user-service/app: Users the table of users with its unique indexes and the
-- routes of routes_users.py, Users.Schemas the validation of schemas.py, Users.Passwords
-- passwords.py with bcrypt as a parameter, Users.Auth routes_auth.py, and Users.Requests a request
-- with its validation. Users.Names, Unique, Effects, Kept, Others, Lookup, Verified, SignIn and
-- NewPassword hold the proofs. Symbols models libs/common/symbols.py on texts. Base.Pages is what
-- the listings share: the newest rows first, a page at a time. Letters beyond ASCII have no case
-- in lower and upper.
--
-- Identifiers, symbols and event ids are only compared, so they are natural numbers. Times are
-- numbers where the code compares them, and left out elsewhere, as are fresh trade ids. Each file
-- ending in Tests runs definitions on concrete data; Engine.Samples holds a small book.
--
-- Not modelled: open_orders and the portfolio's listings, which are queries, the health and
-- statistics routes, what the sockets of the WebSocket bridge carry, and a change in percent,
-- which is a float. The front end, the scripts, the self-checks and the database migrations are
-- not modelled: they hold no logic of the exchange.
pub mod Base
pub mod Money
pub mod Events
pub mod Engine
pub mod Orders
pub mod Accounts
pub mod Gateway
pub mod Broker
pub mod Client
pub mod Security
pub mod Portfolio
pub mod Market
pub mod Notification
pub mod Users
pub mod Symbols
