-- ===== src/Lib.antt =====
-- A model of vgate-manager, the panel of a proxy service: its money, its orders, its codes, its nodes
-- and their traffic, and its administrators, with the theorems that make them correct.
--
-- The panel sells plans and traffic packages. A user has a wallet (internal/service/balance.go) with a
-- ledger; an order (internal/service/order.go) is paid from the wallet as far as it goes and by a
-- payment gateway for the rest; a paid order, a redemption code (internal/service/redemption.go) or a
-- change of plan writes the user's plan, quota and expiry. Invite codes (internal/service/invite.go)
-- admit registrations, and tickets (internal/service/ticket.go) are the support desk. The proxy runs on
-- nodes (internal/service/node.go), which ask the panel whom to serve and report their users' traffic
-- (internal/service/server_api.go); it is charged to the packages that the users own. Administrators
-- (internal/service/auth.go) run the panel.
--
-- Files and the code they model:
-- - Prelude: names of the libraries; Prelude/Int: the integers, and Go's int64 arithmetic, which wraps
--   around (add64, sub64); Prelude/Float: the float64 operations of the proration as an interface, with
--   what IEEE 754 guarantees of them; Prelude/FloatModel: an instance of it over the integers.
-- - Db/Table: the SQL statements on one table as functions on lists (first, count, update, delete,
--   insert); Db/Action: a service method as a function from a state to a result and a state, with the
--   sequence, the transaction that rolls back on an error, and the errors of the services; Db/Rows and
--   Db/Counts: the laws of the statements, and tables with distinct keys.
-- - Model: internal/model/, one record for each table. The services share three sets of tables:
--   Model/Database is what the money, the orders and the codes use, Model/Fleet the nodes and the
--   traffic, Model/Admin the administrators and their sessions.
-- - Balance: BalanceService; Balance/Posting, Balance/Audit: the ledger accounts for the balances.
-- - Plan: PlanService and TrafficPackageService; Plan/Pricing: the choice of a price;
--   Plan/Update: what an update of a plan reaches.
-- - Order: OrderService. Order/Defs: what a call brings with it (its clock and the ids it draws) and
--   the gateways as an interface; Order/Proration: computeRemainingValue and packagePreservingReset
--   (internal/service/user.go); Order/Effect: what a paid order grants; Order/Checkout: createFor;
--   Order/Change: ChangePlan, applyPlanSwitch, PreviewChangePlan; Order/States: markPaid, Reconcile, Get,
--   CloseMine, PayMine, AdminUpdateStatus, CloseExpired. The proofs: Order/Effect/Keeps and
--   Order/Checkout/Keeps (what a method leaves alone), Order/Effect/Free
--   (an order without a price), Order/Closing (which orders a close reaches), Order/Pending (one
--   pending order for each user; Order/Pending/Steps: all calls on the orders, in any order),
--   Order/Money and Order/Wallet (the wallets), Order/Settlement (a payment settles once).
-- - Quota: ResetDueQuotas of internal/service/user.go.
-- - Redemption: RedemptionService; Redemption/Commit, Redemption/Once, Redemption/Race.
-- - Invite: InviteService; Invite/Quota, Invite/Uses.
-- - Registration: the users' part of AuthService (internal/service/auth.go); Registration/Created,
--   Registration/Refused, Registration/Verified.
-- - Ticket: TicketService; Ticket/Machine: the status machine; Ticket/Replies, Ticket/Steps,
--   Ticket/Unread.
-- - Payment: Registry of internal/payment/registry.go, which fills the interface of Order/Defs;
--   Payment/Cache: its cache of providers.
-- - Nodes: NodeService. Nodes/Rules: validateNode; Nodes/Sids: names and short ids; Nodes/Changes:
--   Create, Update, Delete, RegenerateToken. Nodes/Forest, Nodes/Steps: virtual nodes and parents.
-- - Traffic: ReportTraffic of internal/service/server_api.go; Traffic/Entry: the node that traffic is
--   booked to; Traffic/Grants: the charge of packages, with a reference; Traffic/Accounts.
-- - Access: FetchUsers of internal/service/server_api.go, ListNodesForUser and SetUserNodes of
--   internal/service/user.go; Access/Served, Access/Assigned, Access/Unique.
-- - Admin: the administrators in AuthService; Admin/Managed, Admin/Supers, Admin/Sessions, Admin/Chats.
-- - Tests: a small shop and a small fleet, and the theorems applied to them.
--
-- What is abstracted. A call reads the clock once: its reads of time.Now are the same instant. A day
-- has 24 hours for AddDate. An int is an int64. Sums that the database computes are exact. The ids and
-- tokens that a call draws are arguments of it, and a row whose key or unique column is taken is
-- refused; no other failure of the database is modelled. What a provider answers (VerifyNotify, PayURL)
-- and which platforms are available are arguments. Columns for display, the text of a payment page,
-- messages, alerts and listings are left out. Loops are structural recursion on lists; the five
-- attempts to create a redemption code are counted down from 5, as in the source.
--
-- The hashes, the signed tokens and the rules for passwords, the decoders of JSON columns, and the
-- trimming and the case of texts are arguments. A column with a default takes it in a new row where the
-- value is zero, as gorm documents; this is written out for orders, nodes and traffic
-- packages. The node multipliers are numbers of Prelude/Float. The settings of the system are
-- arguments. A short id is drawn at most 8 times, as in the source. Rows that a query sorts by their
-- creation are in the order of the list.
--
-- Not modelled: the admin operations on users, the configuration that a node fetches, subscriptions,
-- statistics, the system configuration, the gateways' protocols, notifications, the HTTP layer and
-- start-up; the user-facing list of plans; the lists of nodes.
--
-- What the theorems say of concurrency: a transaction runs alone, but what a method reads before its
-- transaction may be old when the transaction runs; the two theorems on races are about that.
pub mod Prelude
pub mod Db
pub mod Model
pub mod Balance
pub mod Plan
pub mod Order
pub mod Redemption
pub mod Invite
pub mod Registration
pub mod Ticket
pub mod Quota
pub mod Payment
pub mod Nodes
pub mod Traffic
pub mod Access
pub mod Admin
pub mod Tests
