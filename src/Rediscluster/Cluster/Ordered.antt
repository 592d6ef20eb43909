-- ===== src/Rediscluster/Cluster/Ordered.antt =====
-- multiGet: the replies stand in the order of the keys.
use ipfs_nosql_frame.Prelude.{
  ℕ, zero, suc, ◌≤◌, ◌≡◌, refl, ap, subst, Bool, true, false, Option, none, some, List, [], ◌∷◌,
  ◌++◌, arith, Bytes, length, ◌==◌, if◌then◌else◌, Result, ok, err,
}
use ipfs_nosql_frame.Prelude.Grouping.{
  put_in, spread, AreIndices, indices, contents, take_from, with_indices, with_indices_lem,
  with_indices-contents, Yields, spread-Yields,
}
use ipfs_nosql_frame.Rediscluster.Replies.{Reply, ReplyList, array, nil, cons, values}
use ipfs_nosql_frame.Rediscluster.Slot.{hash}
use ipfs_nosql_frame.Rediscluster.Node.Command.{Arg, key}
use ipfs_nosql_frame.Rediscluster.Cluster.State.{NodeRef, Calls, Cluster, ClusterError}
use ipfs_nosql_frame.Rediscluster.Cluster.Multi.{
  MultiTask, find_task, add_task, add_key, index_of, before, new_task, with_index, get_tasks,
  run_get_tasks, collect, pop, multi_get,
}

module _ {Float : Type 0} where
  abbrev pub args_of : List (MultiTask Float) → List (List (Arg Float))
  args_of [] = []
  args_of (task ∷ tasks) = task.args ∷ args_of tasks

  length-args_of : (tasks : List (MultiTask Float)) → length (args_of tasks) ≡ length tasks
  length-args_of [] = refl
  length-args_of (task ∷ tasks) = omega (arith, length-args_of tasks)

  -- The result has the item `a` put into the group `i`, unless it is an error.
  abbrev Lands :
      List (List (Arg Float))
      → Arg Float
      → Result ClusterError (List (MultiTask Float))
      → ℕ
      → Type 0
  Lands groups a (err e) i = Unit
  Lands groups a (ok tasks) i = (args_of tasks ≡ put_in i a groups) × (i ≤ length groups)

  new_task-Lands :
      (slot : ℕ) (a : Arg Float) (node : Option NodeRef)
      → Lands [] a (new_task slot (a ∷ []) node) 0
  new_task-Lands slot a none = tt
  new_task-Lands slot a (some node) = (refl, omega arith)

  test-Lands :
      (b : Bool) (task : MultiTask Float) (tasks : List (MultiTask Float)) (a : Arg Float) (i : ℕ)
      (rest : Result ClusterError (List (MultiTask Float)))
      → Lands (args_of tasks) a rest i
      → Lands
          (args_of (task ∷ tasks))
          a
          (if b then ok (record task { args = task.args ++ a ∷ [] } ∷ tasks) else before task rest)
          (if b then 0 else suc i)
  test-Lands true task tasks a i rest h = (refl, omega arith)
  test-Lands false task tasks a i (ok tasks') (e, h) = (ap (λ l. task.args ∷ l) e, omega arith)
  test-Lands false task tasks a i (err x) h = tt

  -- The argument goes to the group of the task that is found.
  add_task-Lands :
      (slots : ℕ → Option NodeRef) (slot : ℕ) (a : Arg Float) (tasks : List (MultiTask Float))
      → Lands (args_of tasks) a (add_task slots slot (a ∷ []) tasks) (find_task slot tasks)
  unfolding add_task find_task
  add_task-Lands slots slot a [] = new_task-Lands slot a (slots slot)
  add_task-Lands slots slot a (task ∷ tasks) =
      test-Lands (task.slot == slot) task tasks a (find_task slot tasks)
        (add_task slots slot (a ∷ []) tasks) (add_task-Lands slots slot a tasks)

  -- How the loop of multiGet spreads its keys over the tasks.
  abbrev Spreads :
      List (Arg Float)
      → List (List (Arg Float))
      → Result ClusterError (List (MultiTask Float) × List ℕ)
      → Type 0
  Spreads args groups (err e) = Unit
  Spreads args groups (ok (tasks, index)) =
      (items : List (ℕ × Arg Float)) × (indices items ≡ index)
      × (contents items ≡ args)
      × (spread items groups ≡ args_of tasks)
      × AreIndices items groups

  with_index-Spreads :
      (i : ℕ) (a : Arg Float) (args : List (Arg Float)) (groups : List (List (Arg Float)))
      (x : Result ClusterError (List (MultiTask Float) × List ℕ))
      → i ≤ length groups
      → Spreads args (put_in i a groups) x
      → Spreads (a ∷ args) groups (with_index i x)
  with_index-Spreads i a args groups (err e) h s = tt
  with_index-Spreads i a args groups (ok (tasks, index)) h (items, e1, e2, e3, valid) =
      ((i, a) ∷ items, ap (λ l. i ∷ l) e1, ap (λ l. a ∷ l) e2, e3, (h, valid))

  module _ (format_float : Float → Bytes) (runes : Bytes → List ℕ)
      (slots : ℕ → Option NodeRef) where
    add_key-Lands :
        (k : Option Bytes) (a : Arg Float) (tasks : List (MultiTask Float))
        → Lands
            (args_of tasks)
            a
            (add_key format_float runes slots k (a ∷ []) tasks)
            (index_of format_float runes slots k tasks)
    add_key-Lands none a tasks = tt
    add_key-Lands (some k) a tasks = add_task-Lands slots (hash runes k) a tasks

    get_tasks-Spreads :
        (args : List (Arg Float)) (tasks : List (MultiTask Float))
        → Spreads args (args_of tasks) (get_tasks format_float runes slots args tasks)
    unfolding get_tasks
    get_tasks-Spreads [] tasks = ([], refl, refl, refl, tt)
    get_tasks-Spreads (a ∷ args) tasks =
        go (add_key format_float runes slots (key format_float a) (a ∷ []) tasks)
          (add_key-Lands (key format_float a) a tasks) (get_tasks-Spreads args)
      where
        i : ℕ
        i = index_of format_float runes slots (key format_float a) tasks

        go :
            (x : Result ClusterError (List (MultiTask Float)))
            → Lands (args_of tasks) a x i
            → ((tasks' : List (MultiTask Float))
                → Spreads args (args_of tasks') (get_tasks format_float runes slots args tasks'))
            → Spreads (a ∷ args) (args_of tasks) (elim x [
              | err e ↦ err e
              | ok tasks' ↦ with_index i (get_tasks format_float runes slots args tasks')
            ])
        go (err e) h rest = tt
        go (ok tasks') (e, h) rest =
            with_index-Spreads i a args (args_of tasks)
              (get_tasks format_float runes slots args tasks') h (rw (← e) (rest tasks'))

abbrev pub listed : List Reply → ReplyList
listed [] = nil
listed (r ∷ rs) = cons r (listed rs)

abbrev answered : List (List Reply) → List (Result ClusterError ReplyList)
answered [] = []
answered (group ∷ groups) = ok (listed group) ∷ answered groups

-- What is popped is the reply to the item that is taken.
abbrev Matches :
    Option (Reply × List (List Reply))
    → Result ClusterError (Reply × List (Result ClusterError ReplyList))
    → Type 0
Matches none y = Unit
Matches (some (a, rest)) y = y ≡ ok (a, answered rest)

behind :
    (group : List Reply) (x : Option (Reply × List (List Reply)))
    (y : Result ClusterError (Reply × List (Result ClusterError ReplyList)))
    → Matches x y
    → Matches
        (elim x [ none ↦ none | some (a, groups) ↦ some (a, group ∷ groups) ])
        (elim y [ err e ↦ err e | ok (r, tasks) ↦ ok (r, ok (listed group) ∷ tasks) ])
behind group none y h = tt
behind group (some (a, rest)) y h = rw h refl

pop-Matches :
    (i : ℕ) (groups : List (List Reply)) → Matches (take_from i groups) (pop i (answered groups))
pop-Matches i [] = tt
pop-Matches zero ([] ∷ groups) = tt
pop-Matches zero ((a ∷ group) ∷ groups) = refl
pop-Matches (suc i) (group ∷ groups) =
    behind group (take_from i groups) (pop i (answered groups)) (pop-Matches i groups)

pop-answered :
    (i : ℕ) (a : Reply) (groups rest : List (List Reply))
    → take_from i groups ≡ some (a, rest)
    → pop i (answered groups) ≡ ok (a, answered rest)
pop-answered i a groups rest e =
    subst (λ x. Matches x (pop i (answered groups))) e (pop-Matches i groups)

collect-answered :
    (items : List (ℕ × Reply)) (groups : List (List Reply))
    → Yields items groups
    → collect (indices items) (answered groups) ≡ ok (listed (contents items))
unfolding collect
collect-answered [] groups h = refl
collect-answered ((i, a) ∷ items) groups (rest, e, h) =
    rw (pop-answered i a groups rest e, collect, collect-answered items rest h) refl

-- The same for replies that fall to the tasks by the indices of the keys.
collected_lem :
    {A : Type 0} (items : List (ℕ × A)) (rs : List Reply)
    → length rs ≡ length (contents items)
    → AreIndices items []
    → collect (indices items) (answered (spread (with_indices (indices items) rs) []))
      ≡ ok (listed rs)
collected_lem items rs size valid =
    let (same, back, placed) = with_indices_lem items rs [] [] size refl valid in
    let answers = with_indices (indices items) rs in
    subst (λ l. collect (indices items) (answered (spread answers [])) ≡ ok (listed l)) back
      (subst
        (λ index. collect index (answered (spread answers [])) ≡ ok (listed (contents answers)))
        same (collect-answered answers (spread answers []) (spread-Yields answers placed)))

module _ {Float : Type 0} (N : Calls Float) (cmd : Bytes) where
  -- The node of each task, when its turn comes, answers the command on the arguments of the task with the
  -- array of the replies of its group.
  abbrev pub AnswersEach : List (MultiTask Float) → List (List Reply) → N.World → Type 0
  AnswersEach [] [] w = Unit
  AnswersEach [] (group ∷ groups) w = ⊥
  AnswersEach (task ∷ tasks) [] w = ⊥
  AnswersEach (task ∷ tasks) (group ∷ groups) w =
      (w' : N.World) × (N.do_command task.node.id cmd task.args w ≡ (ok (array (listed group)), w'))
      × AnswersEach tasks groups w'

  run_get_tasks-answered :
      (tasks : List (MultiTask Float)) (groups : List (List Reply)) (w : N.World)
      → AnswersEach tasks groups w
      → (w' : N.World) × (run_get_tasks N cmd tasks w ≡ (answered groups, w'))
  unfolding run_get_tasks values
  run_get_tasks-answered [] [] w h = (w, refl)
  run_get_tasks-answered [] (group ∷ groups) w h = absurd h
  run_get_tasks-answered (task ∷ tasks) [] w h = absurd h
  run_get_tasks-answered (task ∷ tasks) (group ∷ groups) w (w1, e1, h) =
      let (w2, e2) = run_get_tasks-answered tasks groups w1 h in
      (w2, rw (e1, e2, run_get_tasks) refl)

  -- The loop of multiGet has found a task for every key. For any replies, one for each key: in this run the
  -- node of each task answers with the array of the replies that fall to the task by the indices of the
  -- loop, by which its keys fall to it, too. Then multiGet returns, without error, the array of the replies
  -- in the order of the keys, whatever tasks they were spread over.
  pub multi_get-answers :
      (format_float : Float → Bytes) (runes : Bytes → List ℕ) (now turns : ℕ)
      (args : List (Arg Float)) (rs : List Reply) (c : Cluster) (w : N.World)
      (tasks : List (MultiTask Float)) (index : List ℕ)
      → get_tasks format_float runes c.slots args [] ≡ ok (tasks, index)
      → length rs ≡ length args
      → AnswersEach tasks (spread (with_indices index rs) []) w
      → (w' : N.World) × (multi_get format_float runes N now turns cmd args (c, w)
          ≡ ((array (listed rs), none), (c, w')))
        × (spread (with_indices index args) [] ≡ args_of tasks)
  unfolding multi_get
  multi_get-answers format_float runes now turns args rs c w tasks index e size h =
      let (w', ran) = run_get_tasks-answered tasks (spread (with_indices index rs) []) w h in
      let (items, e1, e2, e3, valid) : Spreads args [] (ok (tasks, index)) =
        subst (Spreads args []) e (get_tasks-Spreads format_float runes c.slots args []) in
      let size' : length rs ≡ length (contents items) = rw e2 size in
      let collected : collect index (answered (spread (with_indices index rs) []))
          ≡ ok (listed rs) =
        subst
          (λ index. collect index (answered (spread (with_indices index rs) [])) ≡ ok (listed rs))
          e1 (collected_lem items rs size' valid) in
      (w', rw (e, multi_get, ran, collected) refl, rw (← e1, ← e2, with_indices-contents items) e3)
