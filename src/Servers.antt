-- ===== src/Servers.antt =====
-- `Multithreaded Server implementations` and the servers of `Kernel Modules/hw6`: servers that answer one
-- client after another, one that answers many at once, and a client.
pub mod Text
pub mod World
pub mod Files
pub mod FileServer
pub mod Client
pub mod ComplexServer
pub mod AsyncServer
pub mod SignalServer
pub mod SelectServer
pub mod SimpleServer
pub mod EasyServer
mod Examples
