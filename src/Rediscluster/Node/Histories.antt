-- ===== src/Rediscluster/Node/Histories.antt =====
-- What holds of the pool of a node over every history of calls of getConn, releaseConn and shutdown.
use ipfs_nosql_frame.Prelude.{
  ℕ, ◌≤◌, ℤ, ◌≡◌, refl, subst, ◌⊎◌, inl, inr, if_cases, true, false, List, [], ◌∷◌, arith, length,
  All, is_positive, pos_part, Result, ok, err,
}
use ipfs_nosql_frame.Credis.Source.{Source, Sink}
use ipfs_nosql_frame.Rediscluster.Node.Errors.{NodeError}
use ipfs_nosql_frame.Rediscluster.Node.Pool.{
  Conn, Node, State, Dialled, is_alive, take_conn, get_conn, release_conn, shutdown,
}
use ipfs_nosql_frame.Rediscluster.Node.Bounds.{
  Inv, InOrder, later-Inv, get_conn-Inv, release_conn-Inv, drop_stale_alive,
}

module _ {S : Source} {W : Sink} where
  -- The states that calls of a node reach from its making on, with the time of the last call.
  pub data History : ℕ → State S W → Type 0 where
    starts : (n : Node S W) → n.conns ≡ [] → History 0 (record { node = n; shut = [] })
    gets :
        (t now : ℕ) (s : State S W) (dialled : Dialled S W)
        → History t s
        → t ≤ now
        → History now (get_conn dialled now s).1
    releases :
        (t now : ℕ) (s : State S W) (conn : Conn S W)
        → History t s
        → t ≤ now
        → History now (release_conn now conn s)
    shuts : (t now : ℕ) (s : State S W) → History t s → t ≤ now → History now (shutdown s)

  History-Inv : (now : ℕ) (s : State S W) → History now s → Inv now s.node
  unfolding shutdown
  History-Inv _ _ (starts n e) = record {
    few = rw e (omega arith);
    none_left = inr e;
    ordered = rw e tt;
  }
  History-Inv _ _ (gets t now s' dialled h before) =
      get_conn-Inv dialled now s' (later-Inv t now s'.node before (History-Inv t s' h))
  History-Inv _ _ (releases t now s' conn h before) =
      release_conn-Inv now conn s' (later-Inv t now s'.node before (History-Inv t s' h))
  History-Inv _ _ (shuts t now s' h before) = record {
    few = omega arith;
    none_left = inr refl;
    ordered = tt;
  }

  -- After every sequence of calls of getConn, releaseConn and shutdown, at times that do not fall, on a
  -- node that started without connections, its pool has at most `keepAlive` connections, and none once the
  -- node has been shut down.
  pub History-bounded :
      (now : ℕ) (s : State S W)
      → History now s
      → (length s.node.conns ≤ pos_part s.node.keep_alive)
        × ((s.node.closed ≡ false) ⊎ (s.node.conns ≡ []))
  History-bounded now s h = let v = History-Inv now s h in (v.few, v.none_left)

  -- What getConn promises of a result.
  abbrev Served : Dialled S W → ℤ → ℕ → Result NodeError (Conn S W) × State S W → Type 0
  Served dialled alive now (err e, s) = Unit
  Served dialled alive now (ok conn, s) =
      All (λ d. is_alive alive now d ≡ true) s.node.conns
      × ((is_alive alive now conn ≡ true)
          ⊎ ((s.node.conns ≡ [])
              × (br : S.Reader) × (bw : W.Writer) × (dialled ≡ ok (conn.c, br, bw))))

  take_conn-Served :
      (dialled : Dialled S W) (alive : ℤ) (now : ℕ) (conns : List (Conn S W)) (s : State S W)
      → All (λ d. is_alive alive now d ≡ true) conns
      → Served dialled alive now (take_conn dialled conns s)
  unfolding take_conn
  take_conn-Served (err e) alive now [] s h = tt
  take_conn-Served (ok (c, br, bw)) alive now [] s h = (tt, inr (refl, br, bw, refl))
  take_conn-Served dialled alive now (conn ∷ conns) s (one, h) = (h, inl one)

  get_conn-Served :
      (dialled : Dialled S W) (now : ℕ) (s : State S W)
      → is_positive s.node.alive_time ≡ true
      → InOrder now s.node.conns
      → Served dialled s.node.alive_time now (get_conn dialled now s)
  unfolding get_conn
  get_conn-Served dialled now s positive o =
      if_cases {A = Result NodeError (Conn S W) × State S W} (Served dialled s.node.alive_time now)
        s.node.closed (λ _. tt)
        (λ _. take_conn-Served dialled s.node.alive_time now _ s (
          if_cases (All (λ d. is_alive s.node.alive_time now d ≡ true))
            (is_positive s.node.alive_time)
            (λ _. drop_stale_alive s.node.alive_time now now s.node.conns o)
            (λ negative. let impossible : ⊥ = cc in elim impossible [ ])))

  -- In the same histories, when the node has a positive life time for its connections and getConn returns a
  -- connection, at a time that is not earlier than the last call: every connection that it leaves in the
  -- pool is still alive, and the one returned is alive, or has just been dialled and left the pool empty.
  pub get_conn_alive :
      (t now : ℕ) (s s' : State S W) (dialled : Dialled S W) (conn : Conn S W)
      → History t s
      → t ≤ now
      → is_positive s.node.alive_time ≡ true
      → get_conn dialled now s ≡ (ok conn, s')
      → All (λ d. is_alive s.node.alive_time now d ≡ true) s'.node.conns
        × ((is_alive s.node.alive_time now conn ≡ true)
            ⊎ ((s'.node.conns ≡ [])
                × (br : S.Reader) × (bw : W.Writer) × (dialled ≡ ok (conn.c, br, bw))))
  get_conn_alive t now s s' dialled conn h before positive e =
      subst (Served dialled s.node.alive_time now) e (
        get_conn-Served dialled now s positive
          (later-Inv t now s.node before (History-Inv t s h)).ordered)
