-- ===== src/Lib.antt =====
-- snmp-sd: discovery of SNMP devices for Prometheus and Alloy.
--
-- The program keeps a catalog of devices. A run loads the groups of the discovery file with their
-- auths and fingerprinters, plans the addresses to probe (sweeps of address ranges, seeds, the catalog
-- itself), probes each with the group's auths, crawls to the neighbours of what it found, settles the
-- rows (overrides, duplicates, host names, names), merges them into the catalog and publishes it as
-- files and over HTTP, whole or in shards.
--
-- Files, by the code that they are about:
--   Base         strings, lists, numbers, maps, sorting and errors that the other files share
--   Target       AlloyTarget (snmpdiscovery/emit.go)
--   Catalog      Catalog and its methods (snmpdiscovery/httpsd.go); Merge and Sticky: MergeFound and
--                DropAddresses as changes of a map from addresses to entries
--   Tiers        the scrape tiers (snmpdiscovery/discover.go, TierTargets of snmpdiscovery/scan.go)
--   Shard        shardOf, filterShard, parseShardQuery (snmpdiscovery/shard.go)
--   Address      canonIP and the parts of package net that it uses (snmpdiscovery/cidr.go)
--   Cidr         sweeps, exclusions, membership (snmpdiscovery/cidr.go, allowNeighbor of crawl.go)
--   Fingerprint  matchers and modules (snmpdiscovery/fingerprint.go)
--   Auth         parseAuth (snmpdiscovery/snmp.go)
--   AuthFile     loadAuthsOverlay (snmpdiscovery/snmp.go)
--   Probe        probe, stringifyPDU (snmpdiscovery/snmp.go), reasons (snmpdiscovery/observer.go)
--   Groups       groups and their validation (snmpdiscovery/groups.go, snmpdiscovery/runconfig.go)
--   Overrides    applyOverrides (snmpdiscovery/groups.go)
--   Emit         names, service discovery groups and Atomic, the atomic write (snmpdiscovery/emit.go)
--   Disk         files on a disk, shared by Emit and Init
--   Ping         icmpAlive (snmpdiscovery/ping.go)
--   Http         handlers and routes (snmpdiscovery/httpsd.go)
--   Identity     collapseSameHostname (snmpdiscovery/identity.go)
--   Scan         planInitialJobs, planCrawlJobs, preferAuth (snmpdiscovery/scan.go)
--   Neighbor     LLDP and CDP neighbours (snmpdiscovery/crawl.go); Lldp: the index of an address
--   Worker       probeAll (snmpdiscovery/scan.go)
--   Init         the plan of `init`, its files and flags (snmpdiscovery/initcfg.go)
--   Walk         SNMP walks: Oid and Parse (snmpdiscovery/walkparse.go), Trie, Table, Single and Cluster
--                (snmpdiscovery/walkcluster.go), Library (snmpdiscovery/walkcover.go), Names, Pick and
--                Emit (snmpdiscovery/walkpick.go), Format (snmpdiscovery/walkformat.go), Live
--                (snmpdiscovery/walklive.go)
--   Run          RunScan, publishCatalog (snmpdiscovery/scan.go); Fresh: a run without a catalog
--   Cli          the command (cmd/snmp-discovery): Metrics (metrics.go), Commands (init.go, walk.go), Loop
--                (main.go, Discover of snmpdiscovery/discover.go)
--   Tests        sample data, and the results applied to it
--
-- State and operations: a method of Catalog is a function from a catalog to a catalog and a result,
-- since its mutex makes it one step. A Go map is a list of pairs without repeated keys in order of
-- insertion; where the code ranges over a map, the results speak of what is looked up by key. A
-- function with an error result gives a Result, each error message being a constructor of Error. A
-- string is the list of its bytes; TrimSpace, ToLower and ToUpper are those of ASCII. Times, ports and
-- counters are natural numbers; Atoi refuses what does not fit 64 bits.
--
-- Outside the repository, and so parameters: MD5, regular expressions, the SNMP session, the walk of
-- the neighbour tables, ICMP, reading and writing files, YAML and JSON, the text of times and errors.
--
-- Loops: retries and auths are structural. The sweep of a range has one round of fuel for each of its
-- addresses and one for the end, which Cidr/Ends shows to be enough for IPv4, and reports when not.
-- Removing control characters has the length of the text as fuel, each round taking a byte at least.
-- Reading and printing of numbers have their value as fuel.
--
-- Not modelled: of the command line, signals, the questions of the wizard, the parsing and the help of
-- flags, the registration of metrics and the messages on success. Logging is output. The workers that
-- probe side by side are taken in the order of their jobs.
pub mod Base
pub mod Target
pub mod Catalog
pub mod Tiers
pub mod Shard
pub mod Address
pub mod Cidr
pub mod Fingerprint
pub mod Auth
pub mod AuthFile
pub mod Probe
pub mod Groups
pub mod Overrides
pub mod Emit
pub mod Http
pub mod Identity
pub mod Scan
pub mod Disk
pub mod Init
pub mod Ping
pub mod Walk
pub mod Worker
pub mod Run
pub mod Neighbor
pub mod Cli
pub mod Tests
