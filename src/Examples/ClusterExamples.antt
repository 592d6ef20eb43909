-- ===== src/Examples/ClusterExamples.antt =====
-- A cluster of two masters, a:1 and b:2. The first redirects every command to the second, which answers
-- with the status OK; its variants answer MGET and batches with replies for each part.
use ipfs_nosql_frame.Prelude.{
  ℕ, pos, ◌≡◌, ◌%◌, inl, inr, zero, suc, All, refl, arith, true, false, none, some, List, [], ◌∷◌,
  Bytes, codes, ◌==◌, if◌then◌else◌, Result, ok, err,
}
use ipfs_nosql_frame.Credis.Strconv.{format_nat, format_int}
use ipfs_nosql_frame.Rediscluster.Replies
use ipfs_nosql_frame.Rediscluster.Replies.{
  Reply, values, ReplyList, integer, bulk, simple, redis_error, array, null, nil, cons, equal,
}
use ipfs_nosql_frame.Rediscluster.Lists.{assign_string, assign_int}
use ipfs_nosql_frame.Rediscluster.Kinds.{check_reply, resp_ok, resp_move}
use ipfs_nosql_frame.Rediscluster.Node.Errors.{NodeError, stuck}
use ipfs_nosql_frame.Rediscluster.Node.Command.{Arg, string, key}
use ipfs_nosql_frame.Rediscluster.Cluster.State.{NodeRef, Calls, Cluster, inform, not_found}
use ipfs_nosql_frame.Rediscluster.Cluster.Select.{get_node_by_key, get_node_by_addr}
use ipfs_nosql_frame.Rediscluster.Cluster.Route.{split_spaces, third}
use ipfs_nosql_frame.Rediscluster.Cluster.Commands
use ipfs_nosql_frame.Rediscluster.Cluster.Moved
use ipfs_nosql_frame.Rediscluster.Cluster.Moved.{Chase, arrived, hop}
use ipfs_nosql_frame.Rediscluster.Cluster.Multi
use ipfs_nosql_frame.Rediscluster.Cluster.Ordered
use ipfs_nosql_frame.Rediscluster.Cluster.Batches
use ipfs_nosql_frame.Rediscluster.Cluster.Batches.{Batch, new_batch, put}
use ipfs_nosql_frame.Prelude.Grouping.{spread, with_indices}
use ipfs_nosql_frame.Rediscluster.Cluster.Batched
use ipfs_nosql_frame.Rediscluster.Cluster.Batched.{Line, Filled, empty, more}
use ipfs_nosql_frame.Rediscluster.Cluster.RunBatch
use ipfs_nosql_frame.Rediscluster.Cluster.Replied
use ipfs_nosql_frame.Rediscluster.Slot
use ipfs_nosql_frame.Rediscluster.Cluster.Table
use ipfs_nosql_frame.Rediscluster.Cluster.Table.{Ranges, Found, read_info}
use ipfs_nosql_frame.Rediscluster.Cluster.Update
use ipfs_nosql_frame.Rediscluster.Cluster.Installed

abbrev ascii : Bytes → Bytes
ascii b = b

abbrev node_a : NodeRef
node_a = record { id = 0; address = codes "a:1"; node_type = 1 }

abbrev node_b : NodeRef
node_b = record { id = 1; address = codes "b:2"; node_type = 1 }

abbrev cluster : Cluster
cluster = record {
  slots = λ _. some node_a;
  slaveslots = λ _. [];
  nodes = (codes "a:1", node_a) ∷ (codes "b:2", node_b) ∷ [];
  slave_nodes = [];
  update_time = 0;
  node_times = λ _. 0;
  next_id = 2;
  listening = true;
  update_list = none;
  closed = false;
  is_slave_readable = false;
  slave_operate_rate = 0;
}

abbrev moved : Reply
moved = redis_error (codes "MOVED 5 b:2")

abbrev pop_reply : List Reply → Result NodeError Reply × List Reply
pop_reply [] = (err stuck, [])
pop_reply (r ∷ pipe) = (ok r, pipe)

abbrev redirecting : Calls ℕ
redirecting = record {
  World = Unit;
  do_command = λ id cmd args w. (ok (if id == 0 then moved else simple (codes "OK")), w);
  do_rpush_expire = λ id cmd args w. (ok (integer (pos 1)), w);
  do_asking = λ id cmd args w. (ok (simple (codes "OK")), w);
  do_slave = λ readonly id cmd args w. (ok (simple (codes "OK")), w);
  Pipe = List Reply;
  connect = λ id w. (ok [], w);
  send_all = λ readonly commands pipe. (ok tt, pipe);
  receive_one = pop_reply;
  release = λ id pipe w. w;
  close = λ id pipe w. w;
  make_node = λ node w. w;
  shutdown = λ id w. w;
}

abbrev k : Arg ℕ
k = string (codes "k")

k_at_a : get_node_by_key format_nat ascii k cluster ≡ ok node_a
unfolding get_node_by_key key
k_at_a = refl

moved_kind : check_reply moved ≡ resp_move
unfolding check_reply
moved_kind = refl

moved_address : third (split_spaces [] (codes "MOVED 5 b:2")) ≡ some (codes "b:2")
unfolding split_spaces
moved_address = refl

abbrev informed : Cluster
informed = record cluster {
  listening = false;
  update_list = some (record { node = some node_a; moved_time = 9 });
}

informed_is : inform (some node_a) 9 cluster ≡ informed
unfolding inform
informed_is = refl

b_found : get_node_by_addr (codes "b:2") informed ≡ ok node_b
unfolding get_node_by_addr
b_found = refl

get_ordinary : Moved.IsPlain redirecting 9 format_nat ascii (codes "GET")
unfolding equal
get_ordinary = (refl, refl, refl)

ok_kind : check_reply (simple (codes "OK")) ≡ resp_ok
unfolding check_reply
ok_kind = refl

chased :
    Chase redirecting 9 node_a
      (codes "GET")
      (k ∷ [])
      1
      moved
      cluster
      tt
      (simple (codes "OK"))
      informed
      tt
chased = rw (← informed_is) (
    hop 0 moved (simple (codes "OK")) (simple (codes "OK")) cluster _ tt tt tt (codes "b:2") node_b
      moved_kind moved_address (rw informed_is b_found) refl
      (arrived (simple (codes "OK")) (inform (some node_a) 9 cluster) tt (inl ok_kind)))

do_command-Chase_example :
    Commands.do_command redirecting format_nat ascii 9 3 (codes "GET") (k ∷ []) (cluster, tt)
    ≡ ((simple (codes "OK"), none), (informed, tt))
do_command-Chase_example =
    Moved.do_command-Chase redirecting 9 format_nat ascii 3 1 (codes "GET") k [] node_a moved
      (simple (codes "OK")) cluster informed tt tt tt get_ordinary k_at_a refl chased (omega arith)

-- The same cluster before it has learnt of b:2.
abbrev alone : Cluster
alone = record cluster { nodes = (codes "a:1", node_a) ∷ [] }

single_run : get_node_by_key format_nat ascii k alone ≡ ok node_a
unfolding get_node_by_key key
single_run = refl

b_missing :
    get_node_by_addr (codes "b:2") (inform (some node_a) 9 alone) ≡ err (not_found (codes "b:2"))
unfolding get_node_by_addr inform
b_missing = refl

do_command_loses_example :
    Commands.do_command redirecting format_nat ascii 9 3 (codes "GET") (k ∷ []) (alone, tt)
    ≡ ((null, none), (inform (some node_a) 9 alone, tt))
do_command_loses_example =
    Moved.do_command_loses redirecting 9 format_nat ascii 2 (codes "GET") k [] node_a moved alone tt
      tt (codes "b:2") (not_found (codes "b:2")) get_ordinary single_run refl moved_kind
      moved_address b_missing

-- The same cluster with the slots shared by both masters.
abbrev shared : Cluster
shared = record cluster { slots = λ slot. if slot % 2 == 0 then some node_a else some node_b }

abbrev keys : List (Arg ℕ)
keys = string (codes "foo") ∷ string (codes "hello") ∷ string (codes "{foo}bar") ∷ []

abbrev key_tasks : List (Multi.MultiTask ℕ)
key_tasks =
    record {
      node = node_a;
      slot = 12182;
      args = string (codes "foo") ∷ string (codes "{foo}bar") ∷ [];
    }
    ∷ record { node = node_a; slot = 866; args = string (codes "hello") ∷ [] }
    ∷ []

keys_spread : Multi.get_tasks format_nat ascii shared.slots keys [] ≡ ok (key_tasks, 0 ∷ 1 ∷ 0 ∷ [])
unfolding Multi.get_tasks Multi.add_task Multi.find_task key Slot.hash
keys_spread = refl

abbrev found_values : List Reply
found_values = bulk (codes "1") ∷ null ∷ bulk (codes "3") ∷ []

-- Nodes that answer a task of two keys with the first and the third value.
abbrev values_of : List (Arg ℕ) → List Reply
values_of [] = []
values_of (a ∷ []) = null ∷ []
values_of (a ∷ b ∷ args) = bulk (codes "1") ∷ bulk (codes "3") ∷ []

abbrev answering : Calls ℕ
answering = record redirecting {
  do_command = λ id cmd args w. (ok (array (Ordered.listed (values_of args))), w);
}

multi_get-answers_example :
    (w' : Unit) × (Multi.multi_get format_nat ascii answering 9 3 (codes "MGET") keys (shared, tt)
      ≡ ((array (Ordered.listed found_values), none), (shared, w')))
    × (spread (with_indices (0 ∷ 1 ∷ 0 ∷ []) keys) [] ≡ Ordered.args_of key_tasks)
multi_get-answers_example =
    Ordered.multi_get-answers answering (codes "MGET") format_nat ascii 9 3 keys found_values shared
      tt key_tasks (0 ∷ 1 ∷ 0 ∷ []) keys_spread refl (tt, refl, (tt, refl, tt))

abbrev commands : List (Line ℕ)
commands =
    (codes "GET", string (codes "foo") ∷ [])
    ∷ (codes "GET", string (codes "bar") ∷ [])
    ∷ (codes "INCR", string (codes "{foo}n") ∷ [])
    ∷ []

put_one : Bytes → Bytes → Batch ℕ → Batch ℕ
unfolding put key Slot.hash
put_one cmd k b = (put format_nat ascii 0 9 false cmd (string k ∷ []) (b, shared)).1

abbrev filled : Batch ℕ
filled =
    put_one (codes "INCR") (codes "{foo}n")
      (put_one (codes "GET") (codes "bar") (put_one (codes "GET") (codes "foo") (new_batch 0)))

filled-Filled : Filled format_nat ascii commands filled
unfolding put put_one new_batch key Slot.hash equal Batches.choose_node get_node_by_key
filled-Filled =
    more _ _ _ 0 9 false (codes "INCR") (string (codes "{foo}n")) [] shared shared
      (more _ _ _ 0 9 false (codes "GET") (string (codes "bar")) [] shared shared
        (more _ _ _ 0 9 false (codes "GET") (string (codes "foo")) [] shared shared (empty 0) refl)
        refl)
      refl

-- The replies OK, an error and 1 to the three commands.
abbrev three : List Reply
three = simple (codes "OK") ∷ redis_error (codes "ERR no") ∷ integer (pos 1) ∷ []

abbrev part_of : ℕ → List Reply
part_of zero = simple (codes "OK") ∷ integer (pos 1) ∷ []
part_of (suc id) = redis_error (codes "ERR no") ∷ []

-- Nodes whose connections deliver the replies to their part of the commands.
abbrev replying : Calls ℕ
replying = record redirecting {
  connect = λ id w. (ok (part_of id), w);
  send_all = λ readonly commands pipe. (ok tt, pipe);
}

three-IsOrdinary : All Replied.IsOrdinary three
unfolding check_reply
three-IsOrdinary = (inl refl, (inr refl, (inl refl, tt)))

serves : Replied.Serves replying filled.batches (spread (with_indices filled.index three) []) tt
unfolding put put_one new_batch key Slot.hash equal Batches.choose_node get_node_by_key check_reply
    Batches.add_command Batches.find_batch
serves = (
  part_of 0,
  part_of 0,
  [],
  tt,
  refl,
  refl,
  (integer (pos 1) ∷ [], refl, inl refl, ([], refl, inl refl, refl)),
  (part_of 1, part_of 1, [], tt, refl, refl, ([], refl, inr refl, refl), tt),
)

run_batch-replies_example :
    (w' : Unit) × (RunBatch.run_batch replying 0 9 3 filled (shared, tt) ≡ (ok three, (shared, w')))
    × (spread (with_indices filled.index commands) [] ≡ Batched.lines_of filled.batches)
run_batch-replies_example =
    Replied.run_batch-replies replying 0 9 3 format_nat ascii commands three filled shared tt
      filled-Filled refl three-IsOrdinary serves

abbrev halves : Found
halves = record {
  nslots = 16384;
  masters = (codes "a:1", (0, 8191) ∷ []) ∷ (codes "b:2", (8192, 16383) ∷ []) ∷ [];
  slaves = [];
}

install-LeadsTo_example :
    Installed.LeadsTo
      (some (codes "b:2"))
      (some node_a)
      ((Update.install redirecting 5 halves (cluster, tt)).0.slots 9000)
    × Installed.WellKeyed (Update.install redirecting 5 halves (cluster, tt)).0.nodes
install-LeadsTo_example =
    Installed.install-LeadsTo redirecting 5 9000 halves cluster tt (refl, (refl, tt)) tt

-- Two equal halves count as the whole table.
abbrev half : Reply
half = array (
    cons (integer (pos 0)) (
      cons (integer (pos 8191))
        (cons (array (cons (bulk (codes "a")) (cons (integer (pos 1)) nil))) nil)))

half_twice :
    read_info (cons half (cons half nil)) (record { nslots = 0; masters = []; slaves = [] })
    ≡ some (record {
      nslots = 16384;
      masters = (codes "a:1", (0, 8191) ∷ (0, 8191) ∷ []) ∷ [];
      slaves = [];
    })
unfolding read_info Table.add_info Table.node_address format_int values Replies.int assign_string
    assign_int Table.add_slaves Table.count_slots Table.add_range Table.bits Table.uint16
half_twice = refl
