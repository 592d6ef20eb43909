-- ===== src/Rediscluster/Cluster/Multi.antt =====
-- multi.go. The tasks of a command run one after another, in the order of the list: the code starts a
-- goroutine for each and waits for all.
use ipfs_nosql_frame.Prelude.{
  ℕ, zero, suc, ◌%◌, Option, none, some, List, [], ◌∷◌, ◌++◌, Bytes, codes, length, ◌==◌,
  if◌then◌else◌, Result, ok, err,
}
use ipfs_nosql_frame.Rediscluster.Replies.{
  Reply, ReplyList, ReplyError, simple, null, array, nil, cons, given, redis, err_nil, syntax,
  unexpected_type, odd_length, not_bulk, mismatch, cannot_convert, string, values,
}
use ipfs_nosql_frame.Rediscluster.Slot.{hash}
use ipfs_nosql_frame.Rediscluster.Node.Errors.{NodeError}
use ipfs_nosql_frame.Rediscluster.Node.Command.{Arg, key}
use ipfs_nosql_frame.Rediscluster.Cluster.State.{
  NodeRef, Calls, ClusterError, Answer, invalid_key, no_node_found, invalid_args, from_node,
  reply_error, bad_reply, panic,
}
use ipfs_nosql_frame.Rediscluster.Cluster.Route.{System, settle_answer}

-- multiTask, without its replies.
pub record MultiTask (Float : Type 0) : Type 0 where
  pub node : NodeRef
  pub slot : ℕ
  pub args : List (Arg Float)

-- An error of a conversion, as an error of the cluster.
abbrev pub as_error : ReplyError ClusterError → ClusterError
as_error (given e) = e
as_error (redis m) = reply_error m
as_error err_nil = bad_reply
as_error syntax = bad_reply
as_error unexpected_type = bad_reply
as_error odd_length = bad_reply
as_error not_bulk = bad_reply
as_error mismatch = bad_reply
as_error cannot_convert = bad_reply

abbrev pub wrap : Result NodeError Reply → Answer
wrap (ok reply) = (reply, none)
wrap (err e) = (null, some (from_node e))

module _ {Float : Type 0} where
  -- The index of the task with a slot, or their number.
  unfoldable pub find_task : ℕ → List (MultiTask Float) → ℕ
  find_task slot [] = 0
  find_task slot (task ∷ tasks) =
      let rest = suc (find_task slot tasks) in if task.slot == slot then 0 else rest

  abbrev pub new_task :
      ℕ → List (Arg Float) → Option NodeRef → Result ClusterError (List (MultiTask Float))
  new_task slot args none = err no_node_found
  new_task slot args (some node) = ok (record { node = node; slot = slot; args = args } ∷ [])

  abbrev pub before :
      MultiTask Float
      → Result ClusterError (List (MultiTask Float))
      → Result ClusterError (List (MultiTask Float))
  before task (ok tasks) = ok (task ∷ tasks)
  before task (err e) = err e

  -- The loop over the tasks: the arguments go to the task of their slot, or to a new one.
  unfoldable pub add_task :
      (ℕ → Option NodeRef)
      → ℕ
      → List (Arg Float)
      → List (MultiTask Float)
      → Result ClusterError (List (MultiTask Float))
  add_task slots slot args [] = new_task slot args (slots slot)
  add_task slots slot args (task ∷ tasks) =
      let rest = before task (add_task slots slot args tasks) in
      if task.slot == slot then ok (record task { args = task.args ++ args } ∷ tasks) else rest

  abbrev pub with_index :
      ℕ
      → Result ClusterError (List (MultiTask Float) × List ℕ)
      → Result ClusterError (List (MultiTask Float) × List ℕ)
  with_index i (err e) = err e
  with_index i (ok (tasks, index)) = ok (tasks, i ∷ index)

  module _ (format_float : Float → Bytes) (runes : Bytes → List ℕ)
      (slots : ℕ → Option NodeRef) where
    abbrev pub add_key :
        Option Bytes
        → List (Arg Float)
        → List (MultiTask Float)
        → Result ClusterError (List (MultiTask Float))
    add_key none args tasks = err invalid_key
    add_key (some k) args tasks = add_task slots (hash runes k) args tasks

    -- The loop of multiSet over keys and values.
    unfoldable pub set_tasks :
        List (Arg Float) → List (MultiTask Float) → Result ClusterError (List (MultiTask Float))
    set_tasks [] tasks = ok tasks
    set_tasks (k ∷ []) tasks = err invalid_args
    set_tasks (k ∷ v ∷ args) tasks = elim (add_key (key format_float k) (k ∷ v ∷ []) tasks) [
      | err e ↦ err e
      | ok tasks' ↦ set_tasks args tasks'
    ]

    abbrev pub index_of : Option Bytes → List (MultiTask Float) → ℕ
    index_of none tasks = 0
    index_of (some k) tasks = find_task (hash runes k) tasks

    -- The loop of multiGet over keys, with the index of the task of each.
    unfoldable pub get_tasks :
        List (Arg Float)
        → List (MultiTask Float)
        → Result ClusterError (List (MultiTask Float) × List ℕ)
    get_tasks [] tasks = ok (tasks, [])
    get_tasks (k ∷ args) tasks = elim (add_key (key format_float k) (k ∷ []) tasks) [
      | err e ↦ err e
      | ok tasks' ↦ with_index (index_of (key format_float k) tasks) (get_tasks args tasks')
    ]

module _ {Float : Type 0} (N : Calls Float) where
  abbrev pub replies_of : Result NodeError Reply → Result ClusterError ReplyList
  replies_of (err e) = err (from_node e)
  replies_of (ok reply) = elim (values {E = ClusterError} reply none) [
    | ok l ↦ ok l
    | err e ↦ err (as_error e)
  ]

  -- handleGetTask for every task.
  unfoldable pub run_get_tasks :
      Bytes → List (MultiTask Float) → N.World → List (Result ClusterError ReplyList) × N.World
  run_get_tasks cmd [] w = ([], w)
  run_get_tasks cmd (task ∷ tasks) w =
      let (x, w1) = N.do_command task.node.id cmd task.args w in
      let (xs, w2) = run_get_tasks cmd tasks w1 in (replies_of x ∷ xs, w2)

  module _ (now turns : ℕ) where
    -- handleSetTask
    unfoldable pub handle_set_task : Bytes → MultiTask Float → System N → Answer × System N
    handle_set_task cmd task (c, w) =
        settle_answer N now task.node cmd task.args turns
          (N.do_command task.node.id cmd task.args w) c

    unfoldable pub run_set_tasks :
        Bytes → List (MultiTask Float) → System N → List Answer × System N
    run_set_tasks cmd [] s = ([], s)
    run_set_tasks cmd (task ∷ tasks) s =
        let (x, s1) = handle_set_task cmd task s in
        let (xs, s2) = run_set_tasks cmd tasks s1 in (x ∷ xs, s2)

-- The loop over the answers: the first error, or OK.
unfoldable pub all_set : List Answer → Answer
all_set [] = (simple (codes "OK"), none)
all_set ((reply, e) ∷ answers) =
    let rest = all_set answers in
    elim (string reply e) [ ok s ↦ rest | err x ↦ (null, some (as_error x)) ]

-- What stands first in a task's replies, and the task without it.
abbrev pub pop :
    ℕ
    → List (Result ClusterError ReplyList)
    → Result ClusterError (Reply × List (Result ClusterError ReplyList))
pop i [] = err panic
pop zero (err e ∷ tasks) = err e
pop zero (ok nil ∷ tasks) = err panic
pop zero (ok (cons r l) ∷ tasks) = ok (r, ok l ∷ tasks)
pop (suc i) (task ∷ tasks) = elim (pop i tasks) [
  | err e ↦ err e
  | ok (r, tasks') ↦ ok (r, task ∷ tasks')
]

abbrev pub and_then : Reply → Result ClusterError ReplyList → Result ClusterError ReplyList
and_then r (err e) = err e
and_then r (ok l) = ok (cons r l)

-- The loop that puts the replies in the order of the keys. A task with too few replies panics: the test
-- `len(...) < 0` never holds.
unfoldable pub collect :
    List ℕ → List (Result ClusterError ReplyList) → Result ClusterError ReplyList
collect [] tasks = ok nil
collect (i ∷ index) tasks = elim (pop i tasks) [
  | err e ↦ err e
  | ok (r, tasks') ↦ and_then r (collect index tasks')
]

abbrev pub as_array : Result ClusterError ReplyList → Answer
as_array (ok l) = (array l, none)
as_array (err e) = (null, some e)

module _ {Float : Type 0} (format_float : Float → Bytes) (runes : Bytes → List ℕ) (N : Calls Float)
    (now turns : ℕ) where
  unfoldable pub multi_set : Bytes → List (Arg Float) → System N → Answer × System N
  multi_set cmd args (c, w) =
      if length args % 2 == 0
      then (elim (set_tasks format_float runes c.slots args []) [
        | err e ↦ ((null, some e), (c, w))
        | ok tasks ↦
            let (answers, s) = run_set_tasks N now turns cmd tasks (c, w) in (all_set answers, s)
      ])
      else ((null, some invalid_args), (c, w))

  unfoldable pub multi_get : Bytes → List (Arg Float) → System N → Answer × System N
  multi_get cmd args (c, w) = elim (get_tasks format_float runes c.slots args []) [
    | err e ↦ ((null, some e), (c, w))
    | ok (tasks, index) ↦
        let (xs, w') = run_get_tasks N cmd tasks w in (as_array (collect index xs), (c, w'))
  ]
