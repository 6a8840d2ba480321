-- ===== src/Lib.antt =====
-- Hedonify: the online shop's product, user, cart and order services.
--
-- The program is four HTTP services over one PostgreSQL database and one Redis cache. A checkout
-- request reaches the order service's controller (order/internal/controller/order.go), which makes a
-- result channel and puts the request on a queue; the worker (order/cmd/listener.go) collects the
-- queue into a batch and hands the batch at each tick to BatchCreateOrder
-- (order/internal/service/order.go), which checks the stock, takes it, records the orders and answers
-- each request on its channel. The product, user and cart services read and write the tables and keep
-- documents in the cache.
--
-- The files:
--   Prelude           lists, integers, int32 arithmetic, Go maps, panics
--   Repository        internal/repository: rows, the SQL statements, the mappers; in Integrity the
--                     constraints of migrations/
--   Order.Request     order/pkg/request, order/pkg/response, order/internal/response
--   Order.Batch       BatchCreateOrder: Merge is mergeOrderItems, Check is checkDecreaseQuantity,
--                     Prepare is buildQuery, prepareOrderArgs, prepareOrderItemArgs and
--                     orderToResponse, Create is the transaction; Stock follows the stock through it
--   Order.Batch.Late  the transaction while another commits: what it reads is older than what it writes
--   Order.Queries     OrderService.FindOrderById and FindOrders
--   Order.Channel     the result channels, returnOrderError, returnOrderResult
--   Order.Worker      the worker as a step relation, and its goroutine until the context is done
--   Service           tables, cache and failing calls, as the other services share them, and rules
--   Http              internal/http, internal/middleware, internal/token.go: requests, replies,
--                     handlers, Logging, RecoverPanic, Auth, VerifyToken, tables of routes
--   Product           product/pkg, product/internal/service/product.go, and in Controller
--                     product/internal/controller/product.go
--   User              user/pkg, user/internal/service/user.go, in Tokens the way of a token from
--                     Login to Auth, and in Controller user/internal/controller/user.go
--   Cart              cart/pkg, cart/internal/service/cart.go, in Orders the orders of carts
--                     as a batch, and in Controller cart/internal/controller/cart.go
--   Order.Controller  order/internal/controller/order.go
--   Integrity         the services and the worker against those constraints
--   Infra             internal/config, internal/otel, internal/infra and migrations: what a service
--                     connects to, as runs that return, hang or end the process, with what they
--                     open and close
--   Commands          cmd/root.go, order/cmd/order.go, product/cmd/product.go, cart/cmd/cart.go,
--                     user/cmd/user.go, notification/cmd/notification.go
--   *.Tests           concrete inputs
--
-- How code and model correspond. A struct is a record with the same fields. A UUID is a number. A Go
-- map is an association list with a new key at the end; where the code ranges over a map, the order
-- of the entries is a parameter, any permutation of them. int32 sums wrap. A panic, an error and a
-- value are told apart. A table is a list of rows and a statement a function of the tables that
-- checks the constraints of migrations/; a transaction that fails leaves the tables as they were.
-- Every call of the database and of the cache can fail, as a parameter says; the identifiers, the
-- clock, bcrypt, the signature of tokens, JSON and the other services' answers are parameters.
-- A document in the cache is kept as the Go value that was marshalled.
--
-- Fuel. The inner loop of checkDecreaseQuantity removes an item in each round, so it runs on the
-- number of items as fuel: with no item left there is no round to run.
--
-- HTTP. A handler goes on, has replied, or panics; WriteJsonResponse is a reply and the return after
-- it. Which request reaches which route is the router's choice and not modelled: a table of routes
-- is a list, and what is said of a table is said of each route in it. gorilla/mux's variables,
-- http.Request.PathValue, JSON decoding, the validator, uuid.Parse and golang-jwt are parameters. In
-- Checkout, whether the queue takes the order in time and what comes on its channel are parameters;
-- the worker's part is in Order.Worker.
--
-- Start and end. A command is a run over the database, the variable pool and the connections that
-- are in use; it returns, or waits for ever in a call, or logger.Fatal ends the process, and it lists
-- what it opens and closes on the way. A deferred call is made where its body returns. db.Close
-- returns once no connection of the pool is in use, as pgxpool documents, and postgres.WithInstance
-- keeps one. The goroutines of a service are told by their effect: the server
-- listens or fails before the interruption, the worker ends when its context is done, the providers
-- of telemetry end in any order. Whether connections are active at the interruption is a parameter,
-- and so is golang-migrate, with laws on what Down and Up do to the scripts of migrations/.
--
-- Isolation. A transaction runs alone, or, in Order.Batch.Late, with its select before another
-- transaction's commit and its other statements after it, as read committed allows. In
-- Integrity, operations and single statements follow one another.
--
-- Not modelled: the texts of messages, tracing and logging, the masking of configuration, the query
-- FindOrderItemByIdAndUserId, which no service calls, and deployment. A text that is too long for its
-- column is refused, also where PostgreSQL would cut off blanks at its end.
pub mod Prelude
pub mod Repository
pub mod Order
pub mod Service
pub mod Http
pub mod Product
pub mod User
pub mod Cart
pub mod Integrity
pub mod Infra
pub mod Commands
