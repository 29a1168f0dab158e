-- ===== src/Lib.antt =====
-- A model of the core logic of the API (TypeScript, under src/), and what is proved of it.
--
-- Parts, with the code each models:
--   Hotel.Kardex, Hotel.Positions   src/modules/hotel-store/services/kardex-rules.ts
--   Hotel.Tables, Hotel.Transaction, Hotel.Posting, Hotel.Decision
--                                   src/modules/hotel-store/services/movement.service.ts
--   Hotel.Stock                     src/modules/hotel-store/services/stock.service.ts (reconcile)
--   Hotel.Stocktake                 stocktake-rules.ts and stocktake.service.ts of the same folder
--   Hotel.Housekeeping              housekeeping.service.ts, task-rules.ts and hotel-catalog-rules.ts of
--                                   the same folder (Rules, Tables, Service, Finish)
--   Hotel.Soundness                 the invariant of the hotel store, kept by the operations above
--   Access.Catalog, Access.Resolver src/core/permissions/{catalog,roles,matrix,resolver}.ts and the
--                                   guards of src/core/middlewares/auth.middleware.ts
--   Access.Scope                    src/core/permissions/scope.ts
--   Access.Policy                   src/core/policies/engine.ts and types.ts
--   Kitchen.Fefo, Kitchen.Rules     src/modules/kitchen/services/{fefo,ledger,stock}.ts
--   Kitchen.Store                   src/modules/kitchen/services/kitchen-stock.service.ts (stockIn,
--                                   stockOut, adjust, reverse, register and their helpers), with the
--                                   invariant, the count per item and the replay under Soundness
--   Kitchen.Orders                  src/modules/kitchen/services/purchase-order.service.ts (Lines:
--                                   resolveLines, mergeLines; Policies: policyUser and the seeds of
--                                   src/core/policies/seed.ts; Service: create to cancel; Receipt:
--                                   receive; Reach: the states that orders go through)
--   Inventory.Ledger                src/modules/inventory/services/ledger.ts
--   Inventory.Units                 src/modules/inventory/services/inventory.service.ts (retirements,
--                                   transfers, maintenance, outputs of material)
--   Email.Queue                     src/core/services/email-queue.ts
--   TimeClock.Roster                src/modules/time-clock/services/roster-plan.ts, and the update of
--                                   a link in time-clock-roster.service.ts
--   Base                            lists, integers, sorting and results that the parts share
--
-- How the code is modelled. The tables of the database are lists in a record (Hotel.Tables.Db),
-- and a transaction is a function from the tables to new tables or an error; on an error the old
-- tables stand, which is the roll-back. `HttpError` is a value of Base.Outcome.Failure, with its
-- status and code; `refused` stands for a null where the code asserts that there is none.
-- Identifiers and text keys are numbers, and 0 is the empty text, so that the truth of a text
-- that may be null is `given`. Quantities are counted in thousandths and costs in hundredths, the
-- precision of the columns, so that sums of stored numbers have no rounding, and the tolerance of
-- 1e-9 is equality. A request of the hotel may have finer quantities: they count thousandths of a
-- thousandth besides (Hotel.Tables.RequestLine), which the columns round
-- (Hotel.Transaction.column). Identifiers that the database makes up, and the time, are arguments
-- (`Stamp`), and so is what the database does to the attempts at a serializable transaction
-- (`aborts`). The three attempts of `post`, of the kitchen's `register` and of `create` of an
-- order are a recursion on the two that are left after the first, which is all that the loops can
-- take. A receipt of an order is two transactions, so its end may be neither of the old tables
-- nor of the new ones: Kitchen.Orders.Receipt.ReceiptEnd. Unit costs and tax rates count in ten-
-- thousandths, and where the code rounds a product or a quotient of numbers the model rounds the
-- exact one.
--
-- The parts meet where the code's do: stocktakes and housekeeping post their movements through
-- Hotel.Transaction.apply_in_transaction, the reconciliation reads the ledger through
-- Hotel.Positions.expected_stock, and scopes of records and policies use the roles of
-- Access.Resolver. Orders are received through Kitchen.Store.Register.register and stock_in, and ask
-- the policies through Access.Policy.evaluate_action_policies; an exit of the kitchen splits with
-- Kitchen.Fefo.allocate_fefo. What a movement of device units is worth is
-- Inventory.Ledger.ledger_delta. `Array.sort` is the stable sort of Base.Sort.
--
-- Not modelled: reading queries (lists, reports, dashboards), the audit log and alerts, tokens
-- and sessions, loading of caches from the database, what other requests do between a read and an
-- update that share no transaction (purchase orders, housekeeping), and the modules of tickets,
-- HR, schedules, overtime, the entries, loans, returns and reversals of devices, supplier
-- invoices, the transport of e-mails and notifications.
pub mod Base
pub mod Email
pub mod Hotel
pub mod Access
pub mod Kitchen
pub mod TimeClock
pub mod Inventory
