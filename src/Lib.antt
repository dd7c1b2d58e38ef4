-- ===== src/Lib.antt =====
-- The Go client of the Zeta embedded database: the direct API of embedded/ and its driver for
-- database/sql, over the C engine libzeta.a, which is not in the repository.
--
-- How the parts interact. A program opens a `Database`, whose C handle is behind a mutex, and runs
-- statements on it (`Exec`), queries whose iterator keeps the mutex until it is closed (`Query`), and
-- transactions (`Begin`). Every operation calls functions of embedded/include/zeta.h, which hand out
-- C objects (databases, transactions, statements, strings) that the Go code must free exactly once.
-- The driver has connections and prepared statements of its own, without a mutex, and shares the
-- binding of parameters, the conversion of columns and the making of errors with the direct API.
--
-- The model.
--   Machine: the engine is a parameter, the record `Platform`, a function of its own state for each
--     C function; `World` holds its state, the heap of live C objects and the Go objects that an
--     operation changes (a `Database` with whether its mutex is held, or a driver's `Conn`). An
--     operation is a state transformer that returns, or is undefined (a C function called on a
--     pointer that is not a live object of the right kind: use after free, double free, NULL),
--     blocks (a held mutex is locked), is fatal (a free mutex is unlocked), or runs out of fuel. So
--     a theorem that an operation returns excludes those four.
--   Capi: the functions of zeta.h, with the contracts that its comments state.
--   Errors: embedded/error.go, and consumeErrMsg, dbError, stmtError of embedded/zeta.go.
--   Params: embedded/param.go. A Go `any` is a data type of the cases of the type switch.
--   Database: embedded/zeta.go and embedded/exec.go (Open, OpenMode, OpenMemory, Exec, Close).
--     Opening and Executes compare opening and Exec with what the engine does.
--   Columns: columnToAny and scanColumn of embedded/query.go, with time.Time.
--   Rows: Query and *Rows of embedded/query.go. Selects, here and in Tx, compares a client that reads
--     all rows of a query with what the engine does.
--   Tx: embedded/txn.go; Protocol has the abstract transaction.
--   Sharing: goroutines that share a `Database`, as its comments in embedded/zeta.go allow. A call is one
--     step, since it takes the mutex before it looks at what is shared, and each goroutine has its
--     own iterator and transaction.
--   Schema: embedded/schema.go. strings.Split and strings.TrimRight at one byte are functions on lists.
--   Devlisten: embedded/devlisten.go.
--   Driver: embedded/driver.go. Timestamp is the layout of a time parameter, Values namedToValues and
--     bindValues, Conn *conn and *tx, Stmt *stmt, Rows *rows, Entry the driver itself, connectors and
--     results; Sessions uses a connection and a statement together. Stmt/Executes and Rows/Queries compare
--     a prepared statement and its rows with what the engine does.
--   Setup: cmd/zeta-setup/main.go, the installer of libzeta.a. Disk is the computer: files by path, and
--     an environment (`Host`) that decides which calls of the operating system fail, where a write
--     stops, and what the network answers, each as a function of its own state. Text has the functions
--     of strings and hex, Download downloadToTemp and verifySha256, Install copyFile and install,
--     Commands uninstall, installedVersion and main. Rules, Calls, Writes, Fetches, Verified, Outcome,
--     Placing and Installs are about what install leaves, Versions, Uninstalls, Program, Sums and
--     Trimming about the rest.
--   Example: examples/embedded/main.go, a program over the direct API. `log.Fatal` ends it without the
--     deferred calls.
--   Tests: a small engine and the theorems at concrete inputs.
-- A Go method that changes its receiver returns it, or changes the Go object of the world. `defer` is
-- `deferring`. `mu.Lock` on a held mutex blocks: an operation alone is one goroutine's, and Sharing has many.
--
-- Fuel. Only the loops of Exec (`drain`), of the example over its rows (`show_rows`) and of a client
-- that reads all rows (`fetch`) take fuel, one for each step of the statement, and in database/sql one
-- more for the last call of Next. `Halts e f` says that every statement ends within f steps; the
-- theorems that these return have it as a hypothesis, since a statement that gives rows for ever keeps
-- the Go code in the loop.
--
-- Widths. Go's int is 64 bits; a conversion wraps as Go's and C's do (`wrap`). Floating-point numbers
-- are the platform's. Names of C objects are never used again, so a freed one is told from a live one.
--
-- Not modelled: the engine itself; what closing a database does to the transactions that are live on
-- it, which embedded/txn.go calls undefined behaviour: the model leaves them as they are, so the theorem
-- on the calls of goroutines asks that none is live at a Close, and that on the calls of a transaction
-- that the database is open while it runs;
-- goroutines that share one iterator or transaction, and the order in which waiting goroutines get
-- the mutex; in cmd/zeta-setup the parser of flags and the text of usage,
-- file modes, links, paths that two prefixes share (each prefix is a tree of its own), text that is
-- not ASCII, and other programs that change the files; embedded/cgo_*.go, which only hold linker
-- flags; the registration of the driver and the assertions that its types have the interfaces of
-- database/sql.
mod Prelude
pub mod Machine
pub mod Capi
pub mod Errors
pub mod Params
pub mod Database
pub mod Columns
pub mod Rows
pub mod Tx
pub mod Driver
pub mod Schema
pub mod Sharing
pub mod Devlisten
pub mod Setup
pub mod Example
mod Tests
