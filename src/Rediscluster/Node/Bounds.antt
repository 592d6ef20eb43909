-- ===== src/Rediscluster/Node/Bounds.antt =====
-- An invariant of the pool of a node: how many connections it holds, and in which order. getConn and
-- releaseConn keep it.
use ipfs_nosql_frame.Prelude.{
  ℕ, suc, ◌+◌, ◌≤◌, ◌<◌, ℤ, pos, negsuc, ◌≡◌, refl, ◌⊎◌, inl, inr, Bool-cases, if_cases, Bool, true,
  false, ◌||◌, List, [], ◌∷◌, ◌++◌, arith, length, length-append, All, All-append, ltb, is_positive,
  leb_ℤ, pos_part, if◌then◌else◌, Result, ok, err,
}
use ipfs_nosql_frame.Credis.Source.{Source, Sink}
use ipfs_nosql_frame.Rediscluster.Node.Errors.{NodeError}
use ipfs_nosql_frame.Rediscluster.Node.Pool
use ipfs_nosql_frame.Rediscluster.Node.Pool.{
  Conn, Node, State, Dialled, is_alive, drop_stale, take_conn, get_conn, release_conn, shutdown,
}

or_false_left : (a b : Bool) → (a || b) ≡ false → a ≡ false
or_false_left a b h = ground arith

or_false_right : (a b : Bool) → (a || b) ≡ false → b ≡ false
or_false_right a b h = ground arith

room_left : (keep : ℤ) (n : ℕ) → leb_ℤ keep n ≡ false → suc n ≤ pos_part keep
room_left (pos k) n h = ground arith
room_left (negsuc k) n h = let impossible : ⊥ = cc in elim impossible [ ]

module _ {S : Source} {W : Sink} where
  -- The connections stand in the order in which they were put back, none of them in the future.
  abbrev pub InOrder : ℕ → List (Conn S W) → Type 0
  InOrder now [] = Unit
  InOrder now (conn ∷ conns) = (conn.t ≤ now) × All (λ d. conn.t ≤ d.t) conns × InOrder now conns

  pub record Inv (now : ℕ) (n : Node S W) : Type 0 where
    pub few : length n.conns ≤ pos_part n.keep_alive
    pub none_left : (n.closed ≡ false) ⊎ (n.conns ≡ [])
    pub ordered : InOrder now n.conns

  later-InOrder : (a b : ℕ) (conns : List (Conn S W)) → a ≤ b → InOrder a conns → InOrder b conns
  later-InOrder a b [] h o = tt
  later-InOrder a b (conn ∷ conns) h (past, first, o) =
      (omega arith, first, later-InOrder a b conns h o)

  -- Dropping takes connections off the back.
  drop_stale-InOrder :
      (alive : ℤ) (at now : ℕ) (conns : List (Conn S W))
      → InOrder now conns
      → InOrder now (drop_stale alive at conns)
  unfolding drop_stale
  drop_stale-InOrder alive at now [] o = tt
  drop_stale-InOrder alive at now (conn ∷ conns) o =
      ground (arith, drop_stale-InOrder alive at now conns o.2)

  length-drop_stale :
      (alive : ℤ) (at : ℕ) (conns : List (Conn S W))
      → length (drop_stale alive at conns) ≤ length conns
  unfolding drop_stale
  length-drop_stale alive at [] = omega arith
  length-drop_stale alive at (conn ∷ conns) = ground (arith, length-drop_stale alive at conns)

  later_alive :
      (alive : ℤ) (at t : ℕ) (conns : List (Conn S W))
      → at < t + pos_part alive
      → All (λ d. t ≤ d.t) conns
      → All (λ d. is_alive alive at d ≡ true) conns
  later_alive alive at t [] h o = tt
  later_alive alive at t (conn ∷ conns) h (one, o) =
      (ground arith, later_alive alive at t conns h o)

  -- So the first connection that is alive has only such in front of it.
  pub drop_stale_alive :
      (alive : ℤ) (at now : ℕ) (conns : List (Conn S W))
      → InOrder now conns
      → All (λ d. is_alive alive at d ≡ true) (drop_stale alive at conns)
  unfolding drop_stale
  drop_stale_alive alive at now [] o = tt
  drop_stale_alive alive at now (conn ∷ conns) (past, first, o) =
      elim (Bool-cases (is_alive alive at conn)) [
        | inl lives ↦ rw (lives) (lives, later_alive alive at conn.t conns (ground arith) first)
        | inr stale ↦ rw (stale) (drop_stale_alive alive at now conns o)
      ]

  append-InOrder :
      (now : ℕ) (conns : List (Conn S W)) (conn : Conn S W)
      → InOrder now conns
      → InOrder now (conns ++ record conn { t = now } ∷ [])
  append-InOrder now [] conn o = (omega arith, tt, tt)
  append-InOrder now (d ∷ conns) conn (past, first, o) = (
    past,
    All-append (λ e. d.t ≤ e.t) conns (record conn { t = now } ∷ []) first (past, tt),
    append-InOrder now conns conn o,
  )

  take_conn-Inv :
      (dialled : Dialled S W) (now : ℕ) (conns : List (Conn S W)) (s : State S W)
      → s.node.closed ≡ false
      → length conns ≤ pos_part s.node.keep_alive
      → InOrder now conns
      → Inv now (take_conn dialled conns s).1.node
  unfolding take_conn
  take_conn-Inv (err e) now [] s open_yet few o = record {
    few = omega arith;
    none_left = inr refl;
    ordered = tt;
  }
  take_conn-Inv (ok (c, br, bw)) now [] s open_yet few o = record {
    few = omega arith;
    none_left = inr refl;
    ordered = tt;
  }
  take_conn-Inv dialled now (conn ∷ conns) s open_yet few (_, _, o) = record {
    few = omega arith;
    none_left = inl open_yet;
    ordered = o;
  }

  -- What the clean-up leaves.
  abbrev cleaned : Bool → ℤ → ℕ → List (Conn S W) → List (Conn S W)
  cleaned b alive now conns = if b then drop_stale alive now conns else conns

  cleaned_lem :
      (b : Bool) (alive : ℤ) (now k : ℕ) (conns : List (Conn S W))
      → length conns ≤ k
      → InOrder now conns
      → (length (cleaned b alive now conns) ≤ k) × InOrder now (cleaned b alive now conns)
  cleaned_lem true alive now k conns few o =
      (omega (arith, length-drop_stale alive now conns), drop_stale-InOrder alive now now conns o)
  cleaned_lem false alive now k conns few o = (few, o)

  pub later-Inv : (t now : ℕ) (n : Node S W) → t ≤ now → Inv t n → Inv now n
  later-Inv t now n h v = record {
    few = v.few;
    none_left = v.none_left;
    ordered = later-InOrder t now n.conns h v.ordered;
  }

  pub get_conn-Inv :
      (dialled : Dialled S W) (now : ℕ) (s : State S W)
      → Inv now s.node
      → Inv now (get_conn dialled now s).1.node
  unfolding get_conn
  get_conn-Inv dialled now s v =
      if_cases {A = Result NodeError (Conn S W) × State S W} (λ x. Inv now x.1.node) s.node.closed
        (λ _. v)
        (λ open_yet.
          let (few, o) =
            cleaned_lem (is_positive s.node.alive_time) s.node.alive_time now
              (pos_part s.node.keep_alive) s.node.conns v.few v.ordered in
          take_conn-Inv dialled now _ s open_yet few o)

  pub release_conn-Inv :
      (now : ℕ) (conn : Conn S W) (s : State S W)
      → Inv now s.node
      → Inv now (release_conn now conn s).node
  unfolding release_conn Pool.shutdown_conn
  release_conn-Inv now conn s v =
      if_cases {A = State S W} (λ x. Inv now x.node) (ltb 0 conn.pending || s.node.closed) (λ _. v)
        (λ kept.
          if_cases {A = State S W} (λ x. Inv now x.node)
            (leb_ℤ s.node.keep_alive (length s.node.conns) || leb_ℤ s.node.alive_time 0) (λ _. v)
            (λ room. record {
              few = omega (
                arith,
                length-append {0} s.node.conns (record conn { t = now } ∷ []),
                room_left s.node.keep_alive (length s.node.conns) (or_false_left _ _ room),
              );
              none_left = inl (or_false_right (ltb 0 conn.pending) s.node.closed kept);
              ordered = append-InOrder now s.node.conns conn v.ordered;
            }))
