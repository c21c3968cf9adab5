-- ===== src/Walk.antt =====
-- The analysis of an SNMP walk: snmpdiscovery/walkparse.go, walkcover.go, walkcluster.go, walkpick.go,
-- walkformat.go and walklive.go.
pub mod Oid
pub mod Parse
pub mod Library
pub mod Trie
pub mod Table
pub mod Single
pub mod Cluster
pub mod Names
pub mod Pick
pub mod Emit
pub mod Format
pub mod Live
