-- ===== src/Structures.antt =====
-- `Multithreaded Datastructures`: counters, a list and a queue that several threads share.
pub mod SloppyCounter
pub mod Nodes
pub mod Queue
pub mod LinkedList
mod Examples
