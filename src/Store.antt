-- ===== src/Store.antt =====
-- internal/store/sqlite.go: the SQLite tables of the daemon. A table is the list of its rows, and a
-- statement does to it what its SQL says; whether a call of the database succeeds is an argument.
pub mod History
pub mod Tokens
