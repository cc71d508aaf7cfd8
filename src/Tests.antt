-- ===== src/Tests.antt =====
-- Runs of the model on concrete inputs, and the theorems at inputs that meet their hypotheses.
mod Http
mod Socket
mod Client
mod Site
mod Tasks
mod Worker
mod Pipeline
mod Open
mod EventLoop
mod Exchange
mod Config
mod Sleep
mod Master
mod Startup
mod Threads
mod Queue
mod Serving
mod Bodies
