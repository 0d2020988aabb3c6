-- ===== src/Scripts.antt =====
-- The scripts that evaluate an experiment: the log of the daemon (scripts/run_report_experiments.py)
-- and that of evtest in the guest (scripts/parse_evtest.py).
pub mod Regex
pub mod Log
pub mod Evtest
