-- ===== src/Rediscluster/Cluster/Batched.antt =====
-- A batch that commands have been put into: where each command stands, and in which order.
use ipfs_nosql_frame.Prelude.{
  ℕ, suc, ◌≤◌, ◌≡◌, refl, ap, subst, sym, ◌∙◌, Bool, true, false, Option, none, some, List, [], ◌∷◌,
  ◌++◌, arith, Bytes, length, ◌==◌, if_cases, if◌then◌else◌, Result, ok, err,
}
use ipfs_nosql_frame.Prelude.Grouping.{
  put_in, spread, AreIndices, indices, contents, snoc_lem, AreIndices-snoc,
}
use ipfs_nosql_frame.Rediscluster.Node.Command.{Arg}
use ipfs_nosql_frame.Rediscluster.Cluster.State.{NodeRef, Cluster, ClusterError}
use ipfs_nosql_frame.Rediscluster.Cluster.Batches.{
  NodeCommand, NodeBatch, Batch, find_batch, add_command, fresh, put_on, put, new_batch,
  unsupported_command,
}
use ipfs_nosql_frame.Rediscluster.Cluster.RunBatch.{lines}

-- A command with its arguments.
abbrev pub Line : Type 0 → Type 0
Line Float = Bytes × List (Arg Float)

module _ {Float : Type 0} where
  abbrev pub lines_of : List (NodeBatch Float) → List (List (Line Float))
  lines_of [] = []
  lines_of (b ∷ batches) = lines b.cmds ∷ lines_of batches

  -- No batch has failed.
  abbrev pub AreFine : List (NodeBatch Float) → Type 0
  AreFine [] = Unit
  AreFine (b ∷ batches) = (b.err ≡ none) × AreFine batches

  lines_snoc :
      (cmds : List (NodeCommand Float)) (command : NodeCommand Float)
      → lines (cmds ++ command ∷ []) ≡ lines cmds ++ (command.cmd, command.args) ∷ []
  lines_snoc [] command = refl
  lines_snoc (c ∷ cmds) command = ap (λ l. (c.cmd, c.args) ∷ l) (lines_snoc cmds command)

  -- The command is put into the group of its node.
  abbrev Lands : List (NodeBatch Float) → Line Float → List (NodeBatch Float) → ℕ → Type 0
  Lands batches line batches' i =
      (lines_of batches' ≡ put_in i line (lines_of batches))
      × (i ≤ length (lines_of batches))
      × AreFine batches'

  test-Lands :
      (same : Bool) (b : NodeBatch Float) (command : NodeCommand Float)
      (batches rest : List (NodeBatch Float)) (i : ℕ)
      → AreFine (b ∷ batches)
      → Lands batches (command.cmd, command.args) rest i
      → Lands
          (b ∷ batches)
          (command.cmd, command.args)
          (if same then record b { cmds = b.cmds ++ command ∷ [] } ∷ batches else b ∷ rest)
          (if same then 0 else suc i)
  test-Lands true b command batches rest i fine h =
      (ap (λ l. l ∷ lines_of batches) (lines_snoc b.cmds command), omega arith, fine)
  test-Lands false b command batches rest i (one, fine) (e, h, fine') =
      (ap (λ l. lines b.cmds ∷ l) e, omega arith, (one, fine'))

  add_command-Lands :
      (node : NodeRef) (master : Option NodeRef) (command : NodeCommand Float)
      (batches : List (NodeBatch Float))
      → AreFine batches
      → Lands batches
          (command.cmd, command.args)
          (add_command node master command batches)
          (find_batch node.id batches)
  unfolding add_command find_batch
  add_command-Lands node master command [] fine = (refl, omega arith, (refl, tt))
  add_command-Lands node master command (b ∷ batches) (one, fine) =
      test-Lands (b.node.id == node.id) b command batches (add_command node master command batches)
        (find_batch node.id batches) (one, fine)
        (add_command-Lands node master command batches fine)

  module _ (format_float : Float → Bytes) (runes : Bytes → List ℕ) where
    -- A batch after calls of Put that have returned no error, with the commands in their order.
    pub data Filled : List (Line Float) → Batch Float → Type 0 where
      empty : (seed : ℕ) → Filled [] (new_batch seed)
      more :
          (commands : List (Line Float)) (b b' : Batch Float) (pick now : ℕ) (slave : Bool)
          (cmd : Bytes) (arg : Arg Float) (args : List (Arg Float)) (c c' : Cluster)
          → Filled commands b
          → put format_float runes pick now slave cmd (arg ∷ args) (b, c) ≡ (none, b', c')
          → Filled (commands ++ (cmd, arg ∷ args) ∷ []) b'

    -- The index of such a batch tells where each command stands.
    abbrev pub Placed : List (Line Float) → Batch Float → Type 0
    Placed commands b =
        (items : List (ℕ × Line Float)) × (indices items ≡ b.index)
        × (contents items ≡ commands)
        × (spread items [] ≡ lines_of b.batches)
        × AreIndices items []
        × AreFine b.batches

  -- A put that returns no error has added its command to the batch of a node.
  abbrev Added : Batch Float → Bytes → List (Arg Float) → Option ClusterError × Batch Float → Type 0
  Added b cmd args (none, b') =
      (node : NodeRef) × (master : Option NodeRef) × (b'.batches
        ≡ add_command node master (fresh cmd args) b.batches)
      × (b'.index ≡ b.index ++ find_batch node.id b.batches ∷ [])
  Added b cmd args (some e, b') = Unit

  put_on-Added :
      (b : Batch Float) (cmd : Bytes) (args : List (Arg Float))
      (x : Result ClusterError (NodeRef × Option NodeRef))
      → Added b cmd args (put_on cmd args x b)
  put_on-Added b cmd args (err e) = tt
  put_on-Added b cmd args (ok (node, master)) = (node, master, refl, refl)

  module _ (format_float : Float → Bytes) (runes : Bytes → List ℕ) where
    put-Added :
        (pick now : ℕ) (slave : Bool) (cmd : Bytes) (arg : Arg Float) (args : List (Arg Float))
        (b : Batch Float) (c : Cluster)
        → let (e, b', c') = put format_float runes pick now slave cmd (arg ∷ args) (b, c) in
          Added b cmd (arg ∷ args) (e, b')
    unfolding put
    put-Added pick now slave cmd arg args b c =
        if_cases {A = Option ClusterError × Batch Float × Cluster}
          (λ y. Added b cmd (arg ∷ args) (y.0, y.1)) (unsupported_command cmd) (λ _. tt)
          (λ _. put_on-Added b cmd (arg ∷ args) _)

    spread_after :
        (commands : List (Line Float)) (b b' : Batch Float) (cmd : Bytes) (args : List (Arg Float))
        → Added b cmd args (none, b')
        → Placed format_float runes commands b
        → Placed format_float runes (commands ++ (cmd, args) ∷ []) b'
    spread_after commands b b' cmd args (node, master, eb, ei) (items, e1, e2, e3, valid, fine) =
        let i = find_batch node.id b.batches in
        let (s1, s2, s3) = snoc_lem items i (cmd, args) [] in
        let (e, h, fine') = add_command-Lands node master (fresh cmd args) b.batches fine in
        (
          items ++ (i, (cmd, args)) ∷ [],
          s1 ∙ (ap (λ l. l ++ i ∷ []) e1 ∙ sym ei),
          s2 ∙ ap (λ l. l ++ (cmd, args) ∷ []) e2,
          s3 ∙ (ap (put_in i (cmd, args)) e3 ∙ (sym e ∙ ap lines_of (sym eb))),
          AreIndices-snoc items i (cmd, args) [] valid (rw e3 h),
          rw eb fine',
        )

    pub Filled-Placed :
        (commands : List (Line Float)) (b : Batch Float)
        → Filled format_float runes commands b
        → Placed format_float runes commands b
    unfolding new_batch
    Filled-Placed _ _ (empty seed) = ([], refl, refl, refl, tt, tt)
    Filled-Placed _ _ (more commands b b' pick now slave cmd arg args c c' h e) =
        spread_after commands b b' cmd (arg ∷ args)
          (subst (λ y. Added b cmd (arg ∷ args) (y.0, y.1)) e
            (put-Added pick now slave cmd arg args b c))
          (Filled-Placed commands b h)
