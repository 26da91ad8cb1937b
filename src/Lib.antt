-- ===== src/Lib.antt =====
-- Verification of the ticketing services in Go: Tickets, Orders and Payments.
--
-- Parts and how they interact. Tickets (apps/tickets) owns the tickets: their owners edit them, and
-- an order claims and releases them. Each edit is projected to Orders (apps/orders), which keeps a
-- copy of every ticket, takes orders on it and moves an order through its statuses: Created,
-- AwaitingPayment, and Canceled or Complete. Payments (apps/payments) opens one payment for an order
-- that awaits it, settles it through Orders and records the outcome. Each service keeps its state in
-- its own PostgreSQL database and is called over gRPC, directly or by an activity of a Temporal
-- workflow, which retries calls that fail.
--
-- Files.
--   Base: tests, strings of code points, integers, tables (lists of rows by primary key), and
--     Base.Db, sessions with a database through the pgx driver. Base.Db.Laws and Base.Db.Keeps are
--     the program logic that the proofs use, Base.Db.Retry and Base.Db.Steady what it is to be safe
--     to retry.
--   Orders.Model: apps/orders/internal/order/order.go and the tables of apps/orders/migrations.
--   Orders.Repository: apps/orders/internal/order/postgres_repository.go, a function for each method
--     (ReserveTicket is reserve_ticket, and so on) and for what follows its first statement.
--   Orders.Projection: apps/orders/internal/order/projection.go.
--   Orders.History and Orders.Retries: sequences of calls, and repeated attempts at one call;
--     Orders.History.Holder is the abstract machine of who holds a ticket.
--   Tickets.Model and Tickets.Repository: apps/tickets/internal/ticket/ticket.go and
--     postgres_repository.go; Tickets.History and Tickets.Retries as for Orders.
--   Payments.Model, Payments.Repository and Payments.Worker: payment.go, postgres_repository.go and
--     worker.go of apps/payments/internal/payment.
--   Orders.Service, Tickets.Service and Payments.Service: service.go of the three, in front of the
--     coordinators, which are records of operations as in the source; Base.Validation has the answers
--     that they share. Payments.OrdersClient: apps/payments/internal/payment/orders_client.go.
--   Orders.Server, Tickets.Server and Payments.Server: apps/*/internal/grpc/server.go, and
--     Orders.Server.Interceptor: validation.go beside it; Base.Grpc has the statuses that they answer,
--     Base.ErrorCode: apps/orders/internal/errorcode/error_code.go, which each service has, and
--     Orders.Wire the messages of proto/orders/v1/orders.proto.
--   World: the three databases side by side, and calls between the services over gRPC. Base.Temporal:
--     the failures of activities, and what the coordinators use of Temporal's client.
--   Reservation: apps/orders/internal/reservation. Activities, Workflow and Coordinator are the files
--     of those names; a workflow is the tree of what it waits for. Reservation.System is one step of
--     one workflow, Reservation.History any number of them at work among the other calls that write.
--     Reservation.Later and Reservation.Promise say what the proofs keep.
--   Creation.TicketCreation, with its Coordinator, and Creation.PaymentCreation:
--     apps/tickets/internal/creation and apps/payments/internal/creation, in the same form.
--     Creation.TicketCreation.UpdateWorkflow is the workflow of updates with its lock, and its Steps
--     the steps of one such workflow; Creation.TicketCreation.History is any number of creations and
--     workflows of updates among the other calls, from databases without rows.
--     Tickets.Repository.Recorded says what of a ticket's versions is kept.
--   Payments.History: sequences of calls, as for Orders. Orders.Tests, Tickets.Tests, Payments.Tests,
--     Reservation.Tests, Creation.Tests and Creation.TicketCreation.Runs: runs on small tables.
--
-- How the code is modelled. A UUID is its 128-bit value, a time a number of nanoseconds, of which a
-- column keeps the whole microseconds, a string its code points. A method is a function of a session:
-- the tables, and a schedule that says for each call of the driver to come whether it goes well, is
-- refused, or takes effect with its answer lost; so every theorem about a session covers all of these.
-- A transaction puts the tables back where its body fails or its commit is refused. Violations of
-- primary keys, foreign keys, CHECK constraints and enum values are errors of the statement. A call
-- over gRPC has its own entry of the schedule. NOW(), gen_random_uuid() and uuid.NewString() are
-- arguments; so are uuid.Parse and the text of a UUID, of which the theorems on workflows assume that
-- a text parses to the UUID it is of. An attempt at an activity is one step of its workflow: it fails
-- for good and ends the workflow, fails and is made again, or goes well. No definition runs on fuel:
-- each is a composition of a fixed number of statements, each statement a structural recursion over a
-- table, and each history one over its list of steps.
--
-- Not modelled. Calls and attempts run one after the other: row locks make the transactions do so, and
-- what could come between the two statements of a method without a transaction is left out. Temporal
-- itself is its client's answers and the steps above: that it keeps one workflow per id is not used,
-- save where a theorem says that a workflow has every update of a ticket, and its answers to an update
-- with an old id are left out. Of the ids that uuid.Parse accepts and PostgreSQL does not, such as
-- those with the prefix urn:uuid:, only the update of a ticket has a path of its own, in
-- Tickets.Repository.ById; elsewhere the refusal (22P02) is a statement that the schedule rejects with
-- invalid_text. The settlement worker's ticker and the contexts' deadlines (a turn may come at any
-- time, and a call may end in any error), the processes' wiring, the JSON text of structured errors,
-- logging, and the TypeScript services (API gateway and identity) are outside the model.
pub mod Base
pub mod Orders
pub mod Payments
pub mod Tickets
pub mod World
pub mod Reservation
pub mod Creation
