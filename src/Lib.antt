-- ===== src/Lib.antt =====
-- duckstore: a store on Postgres (the OLTP side) and a DuckDB warehouse built from it (the OLAP
-- side). The program's parts, and the files that model them:
--
--   * internal/sqlsplit/sqlsplit.go splits a SQL script into statements: Sqlsplit. A text is a list
--     of code points; the index `i` of the source is kept as what stands before it and after it, so
--     that every skip is a number of characters.
--   * internal/web/checkout.go is the store's transactions: Store. Tables holds the rows of
--     internal/pg/schema/01_tables.sql, Tx a statement and what may fail, Carts `cartAdd` and
--     `cartUpdate`, Checkout `placeOrder` and `checkout` by its numbered statements (Reads,
--     Allocate, Money, Writes), Orders `orderAction`.
--   * internal/seed/copy.go loads a table over a channel of batches: Seed.Copy.
--   * internal/warehouse/etl.go builds the warehouse file and swaps it in: Warehouse.Build, which
--     takes the statements from Sqlsplit.
--   * internal/warehouse/warehouse.go shares the warehouse file between readers and exchanges it for
--     a newer one: Warehouse.Shared, with the interleavings that its lock allows in
--     Warehouse.Shared.Handles.
--   * internal/query/query.go reads rows up to a limit and writes decimal numbers: Query.
--   * internal/web/qlog.go keeps the queries of a request: Web.QueryLog.
--   * internal/web/race.go and internal/web/etl.go start one race and one ETL run at a time: Web.Runs.
--   * internal/web/console.go runs the statements of a script: Web.Console.
--   * internal/web/store.go changes a price: Store.Pricing. It finds the customer of a page, for which
--     `wrap` of internal/web/server.go runs the handler and answers: Web.Pages. Its pages of a
--     category are Web.Catalog.
--   * internal/seed/generator.go gives the price of a product at a time (Seed.Prices), makes the
--     employees (Seed.Staff), the categories (Seed.Categories), the customers (Seed.Signups) and
--     slugs (Seed.Slug).
--   * internal/seed/seed.go loads the tables: Seed.Loads has the rows of those that it fills with
--     loops of its own.
--   * internal/seed/orders.go writes the orders with all their rows: Seed.Orders, by the parts of
--     `emitOrder` (Picks, Lines, Journey, Rows, Emitted); Checks has what the schema wants of the
--     rows. Seed.Emit is the state in which it runs, with the random numbers and the refusals of
--     the streams as sequences from outside.
--   * internal/bench/bench.go measures the engines: Bench, with its concurrent writers in
--     Bench.Writers.
--
-- The state of the store is the rows, the time that `now()` gives in a transaction, the next values
-- of the identity columns, and two sequences of what comes from outside: the statements that fail
-- and the random numbers. One SQL statement of the source is one function on the rows; an UPDATE
-- with FROM takes the first row that matches, which is the only one when the primary keys hold.
-- `pgx.BeginFunc` is a parameter (`Begin`), with what pgx documents of it as a hypothesis
-- (`Commits`); Tx/Commits/Local has one for which it holds. Go's float64 is a parameter without laws
-- (`Float`). DuckDB, the regular expression and the texts of times of the warehouse build are a
-- parameter (`Engine`). Amounts are whole cents; sums and products of int64 wrap around.
--
-- Fuel: the loops of Split and stripComments take one round for each character at most and one
-- for the end; the reader of a stream takes one round for each row and one for the end. The last
-- loop of `pickProduct` takes the random numbers that are left, and gives no product where they end.
--
-- Not modelled: pages that only read and render, routing, middleware and templates, connections,
-- charts, the scenarios of the benchmark and the random texts and weights of the seed data. Two
-- transactions at once are not modelled either: the row locks that the source takes make one wait for
-- the other.
pub mod Prelude
pub mod Sqlsplit
pub mod Store
pub mod Seed
pub mod Warehouse
pub mod Query
pub mod Bench
pub mod Web
