-- ===== src/Scd/Store/Runs.antt =====
-- How to go through a run on the tables, passed on from the transactions in general.
pub use inter_uss_platform.Base.Action.Runs.{read_elim}
