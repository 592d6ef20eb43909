-- ===== src/Rediscluster/Node/Accounts.antt =====
-- Where the connection of a command goes: back to the pool, or it is closed.
use mathlib.Core.List.{map, map-append, perm_middle, Perm}
use ipfs_nosql_frame.Prelude.{
  ℕ, pos, ◌≡◌, refl, sym, subst, codes, ◌∙◌, if_cases, ◌||◌, List, [], ◌∷◌, ◌++◌, append_assoc,
  Bytes, length, ltb, leb_ℤ, Result, ok, err,
}
use ipfs_nosql_frame.Credis.Source.{Source, Sink}
use ipfs_nosql_frame.Rediscluster.Replies.{Reply}
use ipfs_nosql_frame.Rediscluster.Node.Errors.{NodeError}
use ipfs_nosql_frame.Rediscluster.Node.Command.{Arg, int}
use ipfs_nosql_frame.Rediscluster.Node.Pool.{
  Conn, State, Dialled, get_conn, release_conn, shutdown_conn,
}
use ipfs_nosql_frame.Rediscluster.Node.Exchange.{
  Exchange, ◌>>=◌, proceed, send, flush, receive, settle, with_conn, do_command, do_exchange,
  rpush_expire, rpush_body, do_rpush_expire,
}

module _ {S : Source} {W : Sink} where
  -- The connections of a node that are in its pool, and those that have been closed.
  abbrev pub sockets : State S W → List ℕ
  sockets s = map (λ conn. conn.c) s.node.conns ++ s.shut

  shutdown_conn-sockets :
      (conn : Conn S W) (s : State S W) → Perm (sockets (shutdown_conn conn s)) (conn.c ∷ sockets s)
  unfolding shutdown_conn
  shutdown_conn-sockets conn s = perm_middle (map (λ conn. conn.c) s.node.conns) s.shut

  release_conn-sockets :
      (now : ℕ) (conn : Conn S W) (s : State S W)
      → Perm (sockets (release_conn now conn s)) (conn.c ∷ sockets s)
  unfolding release_conn
  release_conn-sockets now conn s =
      if_cases {A = State S W} (λ x. Perm (sockets x) (conn.c ∷ sockets s))
        (ltb 0 conn.pending || s.node.closed) (λ _. shutdown_conn-sockets conn s)
        (λ _.
          if_cases {A = State S W} (λ x. Perm (sockets x) (conn.c ∷ sockets s))
            (leb_ℤ s.node.keep_alive (length s.node.conns) || leb_ℤ s.node.alive_time 0)
            (λ _. shutdown_conn-sockets conn s)
            (λ _.
              rw
                (
                  map-append (λ (d : Conn S W). d.c) s.node.conns (record conn { t = now } ∷ []),
                  append_assoc,
                )
                (perm_middle (map (λ d. d.c) s.node.conns) s.shut)))

  settle-sockets :
      {A : Type 0} (now : ℕ) (x : Result NodeError A) (conn : Conn S W) (s : State S W)
      → Perm (sockets (settle now (x, conn) s).1) (conn.c ∷ sockets s)
  unfolding settle
  settle-sockets now (ok a) conn s = release_conn-sockets now conn s
  settle-sockets now (err e) conn s = shutdown_conn-sockets conn s

  -- The exchange stays on its connection.
  abbrev Stays : {A : Type 0} → Exchange S W A → Type 0
  Stays m = (conn : Conn S W) → (m conn).1.c ≡ conn.c

  bind-Stays :
      {A B : Type 0} (m : Exchange S W A) (f : A → Exchange S W B)
      → Stays m
      → ((a : A) → Stays (f a))
      → Stays (m >>= f)
  bind-Stays {A = A} m f hm hf conn = go (m conn).0 ∙ hm conn
    where
      go : (x : Result NodeError A) → (proceed x f (m conn).1).1.c ≡ (m conn).1.c
      go (ok a) = hf a (m conn).1
      go (err e) = refl

  receive-Stays : (turns fuel now : ℕ) → Stays (receive turns fuel now)
  unfolding receive
  receive-Stays turns fuel now conn =
      if_cases {A = Result NodeError Reply × Conn S W} (λ x. x.1.c ≡ conn.c) (ltb 0 conn.pending)
        (λ _. refl) (λ _. refl)

  flush-Stays : (now : ℕ) → Stays (flush now)
  unfolding flush
  flush-Stays now conn = refl

  with_conn-sockets :
      (f : Conn S W → State S W → Result NodeError Reply × State S W) (conn : Conn S W)
      (s : State S W) (r : Result NodeError (Conn S W) × State S W) (l : List ℕ)
      → r ≡ (ok conn, s)
      → Perm (sockets (f conn s).1) l
      → Perm (sockets (with_conn f r).1) l
  with_conn-sockets f conn s r l e h = subst (λ x. Perm (sockets (with_conn f x).1) l) (sym e) h

  exchange-sockets :
      {A : Type 0} (now : ℕ) (m : Exchange S W A) (conn : Conn S W) (s : State S W)
      → Stays m
      → Perm (sockets (settle now (m conn) s).1) (conn.c ∷ sockets s)
  exchange-sockets now m conn s h =
      subst (λ c. Perm (sockets (settle now (m conn) s).1) (c ∷ sockets s)) (h conn)
        (settle-sockets now (m conn).0 (m conn).1 s)

  module _ {Float : Type 0} (format_float : Float → Bytes) (turns fuel : ℕ) (dialled : Dialled S W)
      (clock : ℕ → ℕ) where
    send-Stays :
        (cmd : Bytes) (args : List (Arg Float)) (now : ℕ) → Stays (send format_float cmd args now)
    unfolding send
    send-Stays cmd args now conn = refl

    do_exchange-Stays :
        (cmd : Bytes) (args : List (Arg Float))
        → Stays (do_exchange format_float turns fuel dialled clock cmd args)
    do_exchange-Stays cmd args =
        bind-Stays (send format_float cmd args (clock 1)) _ (send-Stays cmd args (clock 1)) (λ _.
          bind-Stays (flush (clock 2)) _ (flush-Stays (clock 2))
            (λ _. receive-Stays turns fuel (clock 3)))

    rpush_expire-Stays :
        (cmd : Bytes) (list element expire : Arg Float)
        → Stays (rpush_expire format_float turns fuel dialled clock cmd list element expire)
    rpush_expire-Stays cmd list element expire =
        bind-Stays (send format_float cmd (list ∷ element ∷ []) (clock 1)) _
          (send-Stays cmd (list ∷ element ∷ []) (clock 1))
          (λ _.
            bind-Stays (send format_float (codes "expire") (list ∷ expire ∷ []) (clock 2)) _
              (send-Stays (codes "expire") (list ∷ expire ∷ []) (clock 2))
              (λ _. bind-Stays (flush (clock 3)) _ (flush-Stays (clock 3)) (λ _.
                bind-Stays (receive turns fuel (clock 4)) _ (receive-Stays turns fuel (clock 4))
                  (λ reply.
                    bind-Stays (receive turns fuel (clock 5)) _ (receive-Stays turns fuel (clock 5))
                      (λ _ conn. refl)))))

    rpush_body-sockets :
        (cmd : Bytes) (list element : Arg Float) (more : List (Arg Float)) (conn : Conn S W)
        (s : State S W)
        → Perm
            (sockets
              (rpush_body format_float turns fuel dialled clock cmd
                (list ∷ element ∷ more)
                conn
                s).1)
            (conn.c ∷ sockets s)
    unfolding rpush_body
    rpush_body-sockets cmd list element [] conn s =
        exchange-sockets (clock 6)
          (rpush_expire format_float turns fuel dialled clock cmd list element (int (pos 600))) conn
          s (rpush_expire-Stays cmd list element (int (pos 600)))
    rpush_body-sockets cmd list element (expire ∷ more) conn s =
        exchange-sockets (clock 6)
          (rpush_expire format_float turns fuel dialled clock cmd list element expire) conn s
          (rpush_expire-Stays cmd list element expire)

    -- When getConn gives `do` a connection, or `doRpushExpire` with at least two arguments, then
    -- afterwards, whatever becomes of the command, this connection and all that the node had in its pool or
    -- had closed before are in the pool or closed, each of them exactly as often as before.
    pub commands-sockets :
        (cmd : Bytes) (list element : Arg Float) (args more : List (Arg Float)) (s s0 : State S W)
        (conn : Conn S W)
        → get_conn dialled (clock 0) s ≡ (ok conn, s0)
        → Perm
            (sockets (do_command format_float turns fuel dialled clock cmd args s).1)
            (conn.c ∷ sockets s0)
          × Perm
              (sockets
                (do_rpush_expire format_float turns fuel dialled clock cmd
                  (list ∷ element ∷ more)
                  s).1)
              (conn.c ∷ sockets s0)
    unfolding do_command do_rpush_expire
    commands-sockets cmd list element args more s s0 conn e = (
      with_conn-sockets
          (λ conn.
            settle (clock 4) (do_exchange format_float turns fuel dialled clock cmd args conn))
          conn s0 _ _ e
          (exchange-sockets (clock 4) (do_exchange format_float turns fuel dialled clock cmd args)
            conn s0 (do_exchange-Stays cmd args)),
      with_conn-sockets
          (rpush_body format_float turns fuel dialled clock cmd (list ∷ element ∷ more)) conn s0 _ _
          e (rpush_body-sockets cmd list element more conn s0),
    )
