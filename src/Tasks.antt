-- ===== src/Tasks.antt =====
-- async/src/TaskFuncs.cpp: the three functions that a worker runs for a request, and the file cache
-- behind them.
pub mod FileCache
pub mod Locate
pub mod Process
pub mod Sharing
