-- ===== src/Stackish.antt =====
-- Stackish, the data language of the protocol: src/stackish/node.c and src/stackish/stackish.c.
pub mod Node
pub mod Tables
pub mod Classes
pub mod Parser
pub mod Sequence
pub mod Bytes
pub mod Text
pub mod Tokens
pub mod Blobs
pub mod Reading
pub mod RoundTrip
pub mod Attribute
pub mod Cons
pub mod Decons
pub mod Destroy
pub mod Print
pub mod Numbers
