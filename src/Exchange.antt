-- ===== src/Exchange.antt =====
-- One exchange, from the bytes of a request to the bytes of its response: the parts of
-- async/src/TasksController.cpp, Worker.cpp and TaskFuncs.cpp in the order in which a client passes
-- them.
pub mod Arriving
pub mod Passing
pub mod Served
pub mod Queue
