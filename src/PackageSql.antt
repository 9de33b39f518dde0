-- ===== src/PackageSql.antt =====
-- The SQL participant of a package transaction: its evidence and the recovery decision of
-- src/plaik_core/package_sql_recovery.py, and the identity of
-- src/plaik_core/package_prepared_transactions.py.
pub mod Evidence
mod Examples
