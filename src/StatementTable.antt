-- ===== src/StatementTable.antt =====
-- polkadot/statement-table: the attestations of parachain candidates.
pub mod Types
pub mod Import
