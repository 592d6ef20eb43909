-- ===== src/Lib.antt =====
-- ipfs-nosql-frame is a proxy between Redis clients and a Redis cluster, written in Go. This library
-- models the parts of it that carry data and proves what they do.
--
-- * MemoryCacher models utils/memorycacher/cache.go. MemoryCacher/Cache.antt holds the state `cache` with
--   its items, its bound and its janitor, and one function for each method: Set, SetDefault, Add, Replace,
--   Get, GetWithExpiration, Delete, DeleteExpired, OnEvicted, Load, Items, ItemCount, Flush, the rounds of
--   janitor.Run and the constructors. MemoryCacher/Counters.antt holds Increment, Decrement and the frame
--   that all numeric methods share, and Counters/Typed.antt the versions for single types. The proofs are
--   in Reads (reads after writes), Sweep (DeleteExpired and Items), Capacity (the bound, over all
--   sequences of calls), Counting and TypedCounting. Sharding is the hash of sharded.go and Sharded its
--   methods and its janitor (proofs in ShardedReads).
-- * Credis models utils/resparse/credis. Resp is resp.go, Decoder and Number are decoder.go, Encoder and
--   Itoa are encoder.go, and Strconv is what they use of Go's strconv. Source lists what the codec asks of
--   the buffered reader and writer below it, as two records of operations and laws. Encoding proves
--   what the encoder writes, RoundTrip and Requests that the decoder reads it back, and Failures what
--   becomes of errors.
-- * Bufio2 models utils/resparse/bufio2/bufio.go. Conn says what is asked of the connections below, which
--   are parameters. Reader and Writer are the two types. Holding, Blocks and Lines prove what reading
--   returns, Sending, Texts and Writing what writing passes on, and Reading and Writing put the laws of
--   Source together from them, so that the theorems of Credis hold of the codec on these buffers.
-- * Rediscluster models the cluster client of utils/rediscluster. Slot is crc16.go and hash of cluster.go
--   (proofs in Tags), Replies the conversions of single replies in reply.go (proofs in Conversions), Lists
--   Ints, Strings, StringMap and Scan (proofs in ListsRead), and Kinds is checkReply with the kinds of
--   reply it tells apart. Two trees stand on these:
--   Node is node.go. Command is the writer of commands, Wire and Numbers the reader of replies, Pool the
--   connections that a node keeps (getConn, releaseConn, shutdown), Exchange do and doRpushExpire, Asking
--   the exchanges after ASKING, Errors the errors. Written and ReadBack prove what goes over the wire,
--   Bounds and Histories what the pool keeps, Accounts where each connection ends.
--   Cluster is cluster.go, multi.go and batch.go. State holds the cluster, and the record `Calls` of what
--   it asks of a node, which Nodes fills with the functions of Node. Select is the choice of a node, Route
--   the handling of MOVED, ASK and timeouts, Commands is Do, SlaveDo, Inform and Close, Multi the commands
--   of many keys, Batches and RunBatch the batches, Table and Update the slot table and its update from
--   CLUSTER SLOTS. Moved, Ordered, Batched, Replied and Installed hold the proofs.
-- * RespEcho models utils/respecho/RedSHandle. Writer is WriterHandle of writer.go, on the io.Writer below
--   it, and Send the functions of fmt.go on a bufio.Writer. Written says what the writer sends.
-- * Sc models the proxy in sc. Backend is what it calls on the cluster client; Composed fills it with Do and
--   GetNodeAddrByKey of Rediscluster. Table is a Go map with keys of bytes. Filter is filter.go and
--   filter_rules.go, with the rounds of StartRuleMonitor in Monitor (proofs in Monitored). Reporter is
--   metrics.go, with the rounds of ReportData and ClearKey in Reports (proofs in Counts), and Alerts is
--   alert.go and event/report.go. Session, Rpush, Commands and Handler are RequestHandleRESP of resper.go: a
--   connection and its refusals and replies, the commands, the switch and the loop. It reads with Credis and
--   writes with RespEcho. The proofs are in Served (the loop of a connection), Pushes and Limits (RPUSH), and
--   Splitting (PING). Routing and Proxy are the route of an outgoing request in traffic_out_core.go, which
--   asks the cache of MemoryCacher and then Redis; the proofs are in Paths, Routed and Chains.
-- * Prelude holds what all share: names of the libraries, tests, lists, integers, results and Go's maps.
-- * Examples applies the theorems at concrete inputs.
--
-- The clock is an argument of the operations that read it. An integer of w bits that is computed with
-- is its bit pattern, a number below 2 ^ w. A call under the cache's lock is one step; Capacity takes Set
-- and Add apart into their two sections under it. Floating point numbers and connections are parameters
-- with their operations. The random numbers of the cluster client and the results of net.DialTimeout are
-- arguments. The goroutines of a batch or of a command of many keys run one after another in the order of
-- the list, and a Go map is walked in the order of its list. Deadlines are exact sums, so that dates past
-- the year 2262 are left out.
--
-- A request on a connection comes with a Moment: its time, its random numbers, and the rules that each place
-- finds that reads them, since another goroutine may change them in between. The loop runs for as many
-- requests as there are moments. Names of commands and keys are upper-cased and trimmed as ASCII. The
-- limiters, JSON, MD5 and JWT are parameters, and the number of shards of sc_log is not negative.
--
-- Fuel: decoding a value takes as much as the value has nodes, and theorem RoundTrip.decode-encoding is
-- given that much. The loop of ReadSlice is given one turn more than the buffer has bytes, since each turn
-- that does not end it adds a byte. The loop of ReadBytes is given as many turns as the stream may have
-- bytes (`limit`), io.ReadFull as many as it has bytes to read, Write three, and WriteString as many as the
-- text has bytes and two. The theorems of Bufio2 show that these are enough. readLine of node.go is given
-- its turns and readReply its depth as arguments, and read_reply-encoding is stated with the fuel that
-- suffices. A chain of MOVED replies has a turn for each hop, which do_command-Chase counts. writeLen has
-- the 32 bytes of its scratch buffer, of which 29 are for digits.
--
-- Not modelled: Save, SaveFile and LoadFile of the cache (Gob and files), the constructors and the
-- buffer pools of the codec, the goroutine of NewCluster that asks for an update at every heartbeat,
-- the destinations of Scan that take reflection, the request parser of utils/respecho/RedSHandle, which
-- the proxy does not use, utils/respecho/RedResp and RedisFastParser, which nothing calls, and the
-- first of them a copy of another project's, the HTTP exchange of the proxy and its headers, the
-- measurements that go to InfluxDB, the recovery from panics, and start-up, configuration, logging and
-- other I/O.
pub mod Prelude
pub mod MemoryCacher
pub mod Credis
pub mod Bufio2
pub mod Rediscluster
pub mod RespEcho
pub mod Sc
pub mod Examples
