-- ===== src/Tests.antt =====
-- Runs of the models on concrete inputs, and each theorem at an input that meets its hypotheses.
mod Machines
mod Hubs
mod Queues
mod Heaps
mod Sorting
mod Orders
mod Routes
mod Commands
mod Clients
mod Parsing
mod Trees
mod Frames
mod Signatures
mod Printing
