-- ===== src/Resp.antt =====
-- src/protocol/resp: the RESP side of the proxy, one module for each family of commands.
pub mod Wire
pub mod Utils
pub mod Strings
pub mod Answers
pub mod Chains
pub mod Silent
pub mod Calls
pub mod Hash
pub mod Lists
pub mod Sets
pub mod SortedSets
