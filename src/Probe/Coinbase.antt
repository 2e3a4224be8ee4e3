-- ===== src/Probe/Coinbase.antt =====
-- analyzeCoinbaseWithWorkerHash of internal/probe/coinbase.go. The loops over inputs, outputs and
-- witness items recur on the rounds left. Go visits the map of destinations in any order: `visit`
-- stands for the order of the run.
pub mod Defs
pub mod Tally
pub mod Parse
pub mod Accounts
pub mod Digest
pub mod Privacy
