-- ===== src/Rediscluster/Cluster/Replied.antt =====
-- RunBatch: the replies stand in the order of the commands.
use ipfs_nosql_frame.Prelude.{
  ℕ, zero, suc, ◌≡◌, refl, ap, subst, ◌⊎◌, inl, inr, false, Option, none, some, List, [], ◌∷◌,
  Bytes, ◌==◌, ok, All, arith, length, sym,
}
use ipfs_nosql_frame.Prelude.Grouping.{
  indices, contents, take_from, spread, with_indices, with_indices_lem, with_indices-contents,
  AreIndices, Yields, spread-Yields,
}
use ipfs_nosql_frame.Rediscluster.Replies.{Reply}
use ipfs_nosql_frame.Rediscluster.Kinds.{resp_ok, resp_error, check_reply}
use ipfs_nosql_frame.Rediscluster.Node.Command.{Arg}
use ipfs_nosql_frame.Rediscluster.Node.Pool.{slave_node}
use ipfs_nosql_frame.Rediscluster.Cluster.State.{NodeRef, Calls, Cluster}
use ipfs_nosql_frame.Rediscluster.Cluster.Batches.{NodeCommand, NodeBatch, Batch}
use ipfs_nosql_frame.Rediscluster.Cluster.Batched.{Line, lines_of, AreFine, Filled, Filled-Placed}
use ipfs_nosql_frame.Rediscluster.Cluster.Route.{settle_reply}
use ipfs_nosql_frame.Rediscluster.Cluster.RunBatch.{
  lines, take_command, assemble, receive_all, do_batch, do_batches, run_batch, is_cluster_down,
}

-- A value or an ordinary error.
abbrev pub IsOrdinary : Reply → Type 0
IsOrdinary r = (check_reply r ≡ resp_ok) ⊎ (check_reply r ≡ resp_error)

ordinary_up : (r : Reply) → IsOrdinary r → is_cluster_down (check_reply r) ≡ false
ordinary_up r (inl kind) = rw kind refl
ordinary_up r (inr kind) = rw kind refl

module _ {Float : Type 0} where
  abbrev answered : List (NodeCommand Float) → List Reply → List (NodeCommand Float)
  answered [] rs = []
  answered (command ∷ cmds) [] = []
  answered (command ∷ cmds) (r ∷ rs) = record command { reply = r; err = none } ∷ answered cmds rs

  abbrev all_answered : List (NodeBatch Float) → List (List Reply) → List (NodeBatch Float)
  all_answered [] groups = []
  all_answered (b ∷ batches) [] = []
  all_answered (b ∷ batches) (group ∷ groups) =
      record b { cmds = answered b.cmds group } ∷ all_answered batches groups

  -- There are as many commands, in as many batches, none of which has failed.
  abbrev Fits : List (NodeBatch Float) → List (List Reply) → Type 0
  Fits [] [] = Unit
  Fits [] (group ∷ groups) = ⊥
  Fits (b ∷ batches) [] = ⊥
  Fits (b ∷ batches) (group ∷ groups) =
      (b.err ≡ none) × (length (lines b.cmds) ≡ length group) × Fits batches groups

  -- What take_command gives of answered batches, against what stands in the groups.
  abbrev Matches :
      Option (Reply × List (List Reply))
      → Option (NodeBatch Float × NodeCommand Float × List (NodeBatch Float))
      → Type 0
  Matches none y = Unit
  Matches (some (r, rest)) y =
      (b : NodeBatch Float) × (command : NodeCommand Float) × (batches : List (NodeBatch Float))
      × (y ≡ some (b, command, all_answered batches rest))
      × (b.err ≡ none)
      × (command.reply ≡ r)
      × Fits batches rest

  head-Matches :
      (cmds : List (NodeCommand Float)) (group : List Reply) (b : NodeBatch Float)
      (batches : List (NodeBatch Float)) (groups : List (List Reply))
      → b.err ≡ none
      → length (lines cmds) ≡ length group
      → Fits batches groups
      → Matches
          (take_from 0 (group ∷ groups))
          (take_command 0 (record b { cmds = answered cmds group } ∷ all_answered batches groups))
  unfolding take_command
  head-Matches cmds [] b batches groups one size fits = tt
  head-Matches [] (r ∷ group) b batches groups one size fits = absurd (omega arith)
  head-Matches (command ∷ cmds) (r ∷ group) b batches groups one size fits = (
    record b { cmds = answered (command ∷ cmds) (r ∷ group) },
    record command { reply = r; err = none },
    record b { cmds = cmds } ∷ batches,
    refl,
    one,
    refl,
    (one, omega arith, fits),
  )

  behind :
      (b : NodeBatch Float) (group : List Reply) (x : Option (Reply × List (List Reply)))
      (y : Option (NodeBatch Float × NodeCommand Float × List (NodeBatch Float)))
      → b.err ≡ none
      → length (lines b.cmds) ≡ length group
      → Matches x y
      → Matches
          (elim x [ none ↦ none | some (r, groups) ↦ some (r, group ∷ groups) ])
          (elim y [
            | none ↦ none
            | some (b', command, batches) ↦
                some (b', command, record b { cmds = answered b.cmds group } ∷ batches)
          ])
  behind b group none y one size h = tt
  behind b group (some (r, rest)) y one size (b', command, batches, e, e1, e2, fits) =
      (b', command, b ∷ batches, rw e refl, e1, e2, (one, size, fits))

  take_command-Matches :
      (i : ℕ) (batches : List (NodeBatch Float)) (groups : List (List Reply))
      → Fits batches groups
      → Matches (take_from i groups) (take_command i (all_answered batches groups))
  unfolding take_command
  take_command-Matches i [] [] fits = tt
  take_command-Matches i [] (group ∷ groups) fits = absurd fits
  take_command-Matches i (b ∷ batches) [] fits = absurd fits
  take_command-Matches zero (b ∷ batches) (group ∷ groups) (one, size, fits) =
      head-Matches b.cmds group b batches groups one size fits
  take_command-Matches (suc i) (b ∷ batches) (group ∷ groups) (one, size, fits) =
      behind b group (take_from i groups) (take_command i (all_answered batches groups)) one size
        (take_command-Matches i batches groups fits)

  assemble_step :
      (now i : ℕ) (index : List ℕ) (batches rest : List (NodeBatch Float)) (c : Cluster)
      (b : NodeBatch Float) (command : NodeCommand Float) (r : Reply) (l : List Reply)
      → take_command i batches ≡ some (b, command, rest)
      → b.err ≡ none
      → command.reply ≡ r
      → is_cluster_down (check_reply command.reply) ≡ false
      → assemble now index rest c ≡ (ok l, c)
      → assemble now (i ∷ index) batches c ≡ (ok (r ∷ l), c)
  unfolding assemble
  assemble_step now i index batches rest c b command r l e0 e1 e2 up later =
      rw (e0, assemble, up, e1, later, e2) refl

  -- The loop over the index gives the replies in the order of the commands.
  assemble-answered :
      (now : ℕ) (items : List (ℕ × Reply)) (batches : List (NodeBatch Float))
      (groups : List (List Reply)) (c : Cluster)
      → All IsOrdinary (contents items)
      → Fits batches groups
      → Yields items groups
      → assemble now (indices items) (all_answered batches groups) c ≡ (ok (contents items), c)
  unfolding assemble
  assemble-answered now [] batches groups c ordinary fits h = refl
  assemble-answered now ((i, r) ∷ items) batches groups c (one, ordinary) fits (rest, e, h) =
      let (b, command, batches', e0, e1, e2, fits') =
        subst (λ x. Matches x (take_command i (all_answered batches groups))) e
          (take_command-Matches i batches groups fits) in
      let up : is_cluster_down (check_reply command.reply) ≡ false = rw e2 (ordinary_up r one) in
      assemble_step now i (indices items) (all_answered batches groups) (all_answered batches' rest)
        c b command r (contents items) e0 e1 e2 up
        (assemble-answered now items batches' rest c ordinary fits' h)

  -- The same for replies that fall to the batches by the indices of the commands.
  collect_lem :
      {A : Type 0} (now : ℕ) (items : List (ℕ × A)) (rs : List Reply)
      (batches : List (NodeBatch Float)) (c : Cluster)
      → length rs ≡ length (contents items)
      → AreIndices items []
      → All IsOrdinary rs
      → let groups = spread (with_indices (indices items) rs) [] in
        Fits batches groups
        → assemble now (indices items) (all_answered batches groups) c ≡ (ok rs, c)
  collect_lem now items rs batches c size valid ordinary fits =
      let (same, back, placed) = with_indices_lem items rs [] [] size refl valid in
      let answers = with_indices (indices items) rs in
      subst
        (λ l. assemble now (indices items) (all_answered batches (spread answers [])) c ≡ (ok l, c))
        back
        (subst
          (λ index.
            assemble now index (all_answered batches (spread answers [])) c
            ≡ (ok (contents answers), c))
          same
          (assemble-answered now answers batches (spread answers []) c
            (subst (All IsOrdinary) (sym back) ordinary) fits (spread-Yields answers placed)))

  module _ (N : Calls Float) where
    -- To each command the pipe delivers its reply, a value or an ordinary error, and is `last` then.
    abbrev pub Delivers : List (NodeCommand Float) → List Reply → N.Pipe → N.Pipe → Type 0
    Delivers [] [] pipe last = pipe ≡ last
    Delivers [] (r ∷ rs) pipe last = ⊥
    Delivers (command ∷ cmds) [] pipe last = ⊥
    Delivers (command ∷ cmds) (r ∷ rs) pipe last =
        (pipe' : N.Pipe) × (N.receive_one pipe ≡ (ok r, pipe'))
        × IsOrdinary r
        × Delivers cmds rs pipe' last

    -- The node of each batch can be reached when its turn comes, and the connection to it takes the commands
    -- of the batch and delivers the replies of its group to them.
    abbrev pub Serves : List (NodeBatch Float) → List (List Reply) → N.World → Type 0
    Serves [] [] w = Unit
    Serves [] (group ∷ groups) w = ⊥
    Serves (b ∷ batches) [] w = ⊥
    Serves (b ∷ batches) (group ∷ groups) w =
        (pipe pipe' last : N.Pipe) × (w' : N.World) × (N.connect b.node.id w ≡ (ok pipe, w'))
        × (N.send_all (b.node.node_type == slave_node) (lines b.cmds) pipe ≡ (ok tt, pipe'))
        × Delivers b.cmds group pipe' last
        × Serves batches groups (N.release b.node.id last w')

    Delivers-length :
        (cmds : List (NodeCommand Float)) (rs : List Reply) (pipe last : N.Pipe)
        → Delivers cmds rs pipe last
        → length (lines cmds) ≡ length rs
    Delivers-length [] [] pipe last h = refl
    Delivers-length [] (r ∷ rs) pipe last h = absurd h
    Delivers-length (command ∷ cmds) [] pipe last h = absurd h
    Delivers-length (command ∷ cmds) (r ∷ rs) pipe last (pipe', e, o, h) =
        ap suc (Delivers-length cmds rs pipe' last h)

    Serves-Fits :
        (batches : List (NodeBatch Float)) (groups : List (List Reply)) (w : N.World)
        → AreFine batches
        → Serves batches groups w
        → Fits batches groups
    Serves-Fits [] [] w fine h = tt
    Serves-Fits [] (group ∷ groups) w fine h = absurd h
    Serves-Fits (b ∷ batches) [] w fine h = absurd h
    Serves-Fits (b ∷ batches) (group ∷ groups) w (one, fine)
          (pipe, pipe', last, w', e1, e2, h, serves) =
        (
          one,
          Delivers-length b.cmds group pipe' last h,
          Serves-Fits batches groups (N.release b.node.id last w') fine serves,
        )

    module _ (pick now turns : ℕ) where
      settle_plain :
          (node : NodeRef) (cmd : Bytes) (args : List (Arg Float)) (r : Reply) (c : Cluster)
          (w : N.World)
          → IsOrdinary r
          → settle_reply N now (λ c. c) node cmd args turns r (c, w) ≡ ((r, none), (c, w))
      unfolding settle_reply
      settle_plain node cmd args r c w (inl kind) = rw kind refl
      settle_plain node cmd args r c w (inr kind) = rw kind refl

      receive_all-answered :
          (node : NodeRef) (cmds : List (NodeCommand Float)) (rs : List Reply) (pipe last : N.Pipe)
          (c : Cluster) (w : N.World)
          → Delivers cmds rs pipe last
          → receive_all N pick now turns node cmds pipe (c, w)
            ≡ ((answered cmds rs, none, last), (c, w))
      unfolding receive_all
      receive_all-answered node [] [] pipe last c w h = rw h refl
      receive_all-answered node [] (r ∷ rs) pipe last c w h = absurd h
      receive_all-answered node (command ∷ cmds) [] pipe last c w h = absurd h
      receive_all-answered node (command ∷ cmds) (r ∷ rs) pipe last c w (pipe1, e1, one, h) =
          let e2 = receive_all-answered node cmds rs pipe1 last c w h in
          let plain = settle_plain node command.cmd command.args r c w one in
          rw (e1, receive_all, plain, e1, e2) refl

      do_batches-answered :
          (batches : List (NodeBatch Float)) (groups : List (List Reply)) (c : Cluster)
          (w : N.World)
          → Serves batches groups w
          → (w' : N.World) × (do_batches N pick now turns batches (c, w)
              ≡ (all_answered batches groups, (c, w')))
      unfolding do_batches do_batch
      do_batches-answered [] [] c w serves = (w, refl)
      do_batches-answered [] (group ∷ groups) c w serves = absurd serves
      do_batches-answered (b ∷ batches) [] c w serves = absurd serves
      do_batches-answered (b ∷ batches) (group ∷ groups) c w
            (pipe, pipe', last, w1, e1, e2, h, serves) =
          let e3 = receive_all-answered b.node b.cmds group pipe' last c w1 h in
          let one : do_batch N pick now turns b (c, w)
              ≡ (record b { cmds = answered b.cmds group }, (c, N.release b.node.id last w1)) =
            rw (e1, do_batch, e2, e3) refl in
          let (w2, e4) =
            do_batches-answered batches groups c (N.release b.node.id last w1) serves in
          (w2, rw (one, do_batches, e4) refl)

      -- A batch that was filled by calls of Put without errors, and any replies, one for each command and
      -- each a value or an ordinary error. In this run, the node of each part of the batch can be reached
      -- when its turn comes, takes the commands of its part, and sends the replies that fall to its part by
      -- the indices of the batch. By the same indices the commands fall to the parts they are in. Then
      -- RunBatch returns, without error, the replies in the order in which the commands were put, however
      -- Put has spread them over the nodes, and leaves the cluster as it was.
      pub run_batch-replies :
          (format_float : Float → Bytes) (runes : Bytes → List ℕ) (commands : List (Line Float))
          (rs : List Reply) (bat : Batch Float) (c : Cluster) (w : N.World)
          → Filled format_float runes commands bat
          → length rs ≡ length commands
          → All IsOrdinary rs
          → Serves bat.batches (spread (with_indices bat.index rs) []) w
          → (w' : N.World) × (run_batch N pick now turns bat (c, w) ≡ (ok rs, (c, w')))
            × (spread (with_indices bat.index commands) [] ≡ lines_of bat.batches)
      unfolding run_batch
      run_batch-replies format_float runes commands rs bat c w filled size ordinary serves =
          let (items, e1, e2, e3, valid, fine) =
            Filled-Placed format_float runes commands bat filled in
          let size' : length rs ≡ length (contents items) = rw e2 size in
          let serves' : Serves bat.batches (spread (with_indices (indices items) rs) []) w =
            rw e1 serves in
          let (w', ran) =
            do_batches-answered bat.batches (spread (with_indices (indices items) rs) []) c w
              serves' in
          let collected = collect_lem now items rs bat.batches c size' valid ordinary (
            Serves-Fits bat.batches (spread (with_indices (indices items) rs) []) w fine serves') in
          (
            w',
            rw (ran, run_batch, ← e1, collected) refl,
            rw (← e1, ← e2, with_indices-contents items) e3,
          )
