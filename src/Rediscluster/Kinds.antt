-- ===== src/Rediscluster/Kinds.antt =====
-- cluster.go: checkReply, which sorts the replies of a node by the first bytes of an error.
use ipfs_nosql_frame.Prelude.{Bool, ◌&&◌, [], Bytes, codes, length, take, leb, if◌then◌else◌}
use ipfs_nosql_frame.Rediscluster.Replies.{
  Reply, integer, bulk, simple, redis_error, null, array, equal,
}

-- The constants kRespOK to kRespClusterDown.
pub data RespKind : Type 0 where
  resp_ok resp_move resp_ask resp_conn_timeout resp_error resp_cluster_down : RespKind

-- `len(m) >= n && string(m[:n]) == p`, for a text p of n bytes
unfoldable pub starts_with : Bytes → Bytes → Bool
unfolding equal
starts_with p m = leb (length p) (length m) && equal (take (length p) m) p

unfoldable pub check_error : Bytes → RespKind
unfolding starts_with
check_error m =
    if starts_with (codes "ASK") m
    then resp_ask
    else if starts_with (codes "MOVED") m
    then resp_move
    else if starts_with (codes "ECONNTIMEOUT") m
    then resp_conn_timeout
    else if starts_with (codes "CLUSTERDOWN") m
    then resp_cluster_down
    else resp_error

unfoldable pub check_reply : Reply → RespKind
unfolding check_error
check_reply (redis_error m) = check_error m
check_reply (integer n) = resp_ok
check_reply (bulk b) = resp_ok
check_reply (simple s) = resp_ok
check_reply null = resp_ok
check_reply (array l) = resp_ok

-- reply.(redisError).Error(), for a redisError
abbrev pub message : Reply → Bytes
message (redis_error m) = m
message (integer n) = []
message (bulk b) = []
message (simple s) = []
message null = []
message (array l) = []
