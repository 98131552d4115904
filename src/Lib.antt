-- ===== src/Lib.antt =====
-- A model of the backend of an LPG distribution company (backend/src): stations that hold gas,
-- attendants who sell it in shifts, customers with credit, a journal of double entries.
--
-- Parts, by file and source. Each operation keeps the name of its method in snake case.
--   Database: the entities with the columns that are read or written (backend/src/*/*.entity.ts),
--     a repository as a table of rows under ids, and the database as one record `Db`. An operation
--     is a function from the state to a result or a thrown failure with the state that it leaves:
--     what was saved before an exception stays saved. `Keeps` and `Returns` hold the rules for
--     reasoning about such operations.
--   Common: backend/src/common/enums.ts and decimal.ts, and the failures.
--   Inventory: backend/src/inventory/inventory.service.ts, the stock of gas and its log.
--   Finance: backend/src/finance, the journal, its postings and reversals, and the statements.
--   Accessories: backend/src/accessories/accessories.service.ts.
--   Customers: the credit accounts of backend/src/customers/customers.service.ts.
--   Loyalty: backend/src/loyalty/loyalty.service.ts.
--   Stations: the weighted cost of backend/src/stations/stations.service.ts.
--   Shifts: backend/src/shifts/shifts.service.ts, and the readings of backend/src/tanks.
--   Transfers: backend/src/transfers/transfers.service.ts.
--   Requisitions: backend/src/requisitions/requisitions.service.ts.
--   Sales: backend/src/sales/sales.service.ts. A sale calls the inventory, the journal, the
--     accessories, the customers, the points and the stations; a void calls the reversals.
--   Deliveries: backend/src/deliveries/deliveries.service.ts, which moves gas into the stock, averages
--     its cost and posts it.
--   Procurement: backend/src/procurement/procurement.service.ts, and in Match three-way-match.service.ts
--     beside it. An order received calls the accessories and the journal.
--   Workflows: backend/src/workflows/workflows.service.ts, the tasks of approval.
--   Expenses: backend/src/expenses/expenses.service.ts, which calls the tasks and the journal.
--   Tanks: the check of the stocks in backend/src/tanks/tanks.service.ts against the log.
--   Franchise: the settlements of backend/src/franchise/franchise.service.ts, which post royalties.
--   Cylinders: the swaps of backend/src/cylinders/cylinders.service.ts.
--   Maintenance: the hydro tests of backend/src/maintenance/maintenance.service.ts.
--   Payc: the prepaid meters of backend/src/payc/payc.service.ts.
--   Paychangu: backend/src/paychangu/paychangu.service.ts, the payments through the gateway, which
--     call the meters and the sales. Start has the creation of payments and their synchronization,
--     Phone the phone numbers.
--   Tests: the theorems at concrete inputs.
--
-- Numbers. Money is an integer number of hundredths of a kwacha and gas an integer number of
-- grams, the scales of the database columns: sums need no rounding. The source computes with
-- floats. `round_div` is the rounding of the exact product or quotient, with a tie upwards, while
-- `Math.round(value * 100) / 100` rounds the float: where the exact value is a tie or the float
-- next to it lies on the other side, as in `round2(1.005)`, which is 1.00, the model is one unit of
-- the last digit off. An intermediate value of the source that has more digits than its column is
-- rounded here at once. Days and dates are those of UTC, five years on are counted in the
-- Gregorian calendar, and times are milliseconds. `new Date()` is the field `clock` of the state
-- during one operation; only the number of a journal entry, which is unique and is made from
-- `Date.now()`, takes the milliseconds that have passed until then from the field `elapsed`, any
-- function of the id of the entry, and its save fails where the number is taken. A new row takes an
-- id that its table has not given out.
-- All loops are structural recursion over lists of rows; there is no fuel.
--
-- Not modelled: the numbers of the other documents (deliveries, transfers, requisitions, orders,
-- settlements, tasks), which are unique and made from the time as well, so that the save of such a
-- document may fail where the model's does not; texts for display, the audit log, the notifications
-- and the printed documents,
-- since no modelled operation reads them; two requests at once, since each is taken to run to its
-- end before the next; the answers of the payment gateway, and the exchange with the vendor of the
-- prepaid meters behind a top-up, which are parameters; the commands and the alerts of the meters;
-- the read-only listings; and the services for banking, users and permissions, safety
-- and projects, the plans of the maintenance, the reports, the frontend and the website.
pub mod Prelude
pub mod Common
pub mod Database
pub mod Inventory
pub mod Finance
pub mod Franchise
pub mod Accessories
pub mod Customers
pub mod Cylinders
pub mod Loyalty
pub mod Stations
pub mod Shifts
pub mod Tanks
pub mod Maintenance
pub mod Transfers
pub mod Requisitions
pub mod Sales
pub mod Deliveries
pub mod Procurement
pub mod Workflows
pub mod Expenses
pub mod Payc
pub mod Paychangu
pub mod Tests
