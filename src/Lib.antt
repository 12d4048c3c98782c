-- ===== src/Lib.antt =====
-- Verification of the money and rental logic of the backend of GestionAlquileres, a multi-tenant
-- property management service (NestJS over PostgreSQL). The TypeScript is translated to functions of
-- which the kernel checks properties.
--
-- The parts and their files:
--  Prelude      shared names, Boolean tests, lists, results and the signed integers (over two natural
--               parts, which `omega` reads)
--  Money        src/common/money: rounding.ts (Money.Decimal), the numbers the services compute with
--               (Money.Numeral, Money.Percent), currency.ts, money.ts (Money.Value) and allocate.ts
--  Accounting   src/accounting: the tables (Tables), `validateEntry` (Validation), the months of
--               accounting-periods.service.ts (Dates, Periods, Closing), `postEntry` and `reverseEntry` of
--               accounting-ledger.service.ts (Ledger, Reversal; Calls is any sequence of them), the
--               posting services (Books: the rows, Books.Entries: what they write, Books.Postings: what
--               they do) and accounting-outbox.processor.ts (Processor)
--  Transaction  a query runner: a query reads or changes the store or fails; `transaction` is
--               startTransaction, commitTransaction and rollbackTransaction
--  SplitPayment src/split-payment/split-payment.service.ts: a rent divided among the owners
--  Payments     src/payments: the statuses of a payment and their transitions (Status), `createRefund` of
--               payment-refunds.service.ts (Refunds), the events that it leaves for
--               src/accounting/accounting-outbox.service.ts (Outbox), and the confirmation of paid
--               reservations of reservation-payment-confirmation.service.ts (Confirmation)
--  Reservations src/reservations: reservation-pricing.ts (Pricing), the enums of statuses and actions
--               (Status), cancellation-policy.ts (Cancellation), the tables (Tables),
--               reservation-refund.service.ts (Refunds), `transition` of
--               reservations-admin.service.ts (Admin), preview and cancellation of
--               reservations.service.ts (Guest), its `claimNightsOrFail` (Claim),
--               season-pricing.ts and season-rules.service.ts (Season), ical/ical-builder.ts and
--               ical/ical-parser.ts (Ical, over the next day of a date),
--               reservation-expiry.service.ts (Expiry); Nights is the invariant of
--               property_availability that they keep
-- Tests holds concrete inputs at which the conditions of the theorems hold.
--
-- SplitPayment calls `allocate` of Money for the parts of the owners, and runs in a transaction of its
-- own or of its caller. The pricing of Reservations computes with the decimals of Money; an action of an
-- administrator and the cancellation of a guest call Refunds within their transaction. The processor of
-- Accounting calls the posting services on the books, and these the ledger on its tables, which has a
-- transaction of its own; `zoom` is a service on a part of the store.
--
-- Conventions. A decimal is units / 10 ^ places, its sums and products are exact; rounding to places
-- is ROUND_HALF_UP of decimal.js, which is not part of the repository: it is a parameter
-- (`DecimalLib`) with the law that the result is nearest and ties go away from zero, and
-- `exact_decimals` is a function that meets it. JavaScript numbers that hold amounts of NUMERIC
-- columns are decimals too; that a double may miss the last digit beyond 2 ^ 53 is not modelled. A
-- weight of `allocate` is an integer, as the percentages of property_owners are. Strings are lists of
-- code points. A tenant's tables are a record of lists of rows; a query that fails is a choice of the
-- environment (`Session.fails`). How many entries TypeORM gives as the result of an UPDATE or DELETE
-- with RETURNING is a parameter, `raw_length`, where the code counts them. `trim` drops the blanks of
-- the language; `toUpperCase` maps the ASCII letters.
--
-- Fuel: the loop of `allocate` gets as many rounds as the remainder has units, which is what it runs
-- for; that it returns is proved.
--
-- Not modelled: the controllers, DTO validation, dependency injection, logging, the provisioning of
-- schemas, file storage, e-mail and the clients of payment processors, which only call libraries.
pub mod Prelude
pub mod Money
pub mod Transaction
pub mod SplitPayment
pub mod Reservations
pub mod Accounting
pub mod Payments
pub mod Tests
