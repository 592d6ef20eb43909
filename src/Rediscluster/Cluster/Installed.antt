-- ===== src/Rediscluster/Cluster/Installed.antt =====
-- What Update makes of the table of slots.
use ipfs_nosql_frame.Prelude.{
  ℕ, zero, suc, ◌+◌, ◌-◌, ltb, leb, arith, List, ◌||◌, ◌≡◌, refl, ap, subst, sym, ◌∙◌, if_cases,
  Bool, true, false, ◌&&◌, Option, none, some, [], ◌∷◌, Bytes, ◌==◌, ==_iff, if◌then◌else◌,
}
use ipfs_nosql_frame.Rediscluster.Replies.{equal}
use ipfs_nosql_frame.Rediscluster.Node.Pool.{master_node, slave_node}
use ipfs_nosql_frame.Rediscluster.Cluster.State.{NodeRef, NodeMap, Calls, Cluster, lookup, insert}
use ipfs_nosql_frame.Rediscluster.Cluster.Table.{Ranges, Found}
use ipfs_nosql_frame.Rediscluster.Cluster.Route.{System}
use ipfs_nosql_frame.Rediscluster.Cluster.Update.{
  fill_from, fill, node_for, append_slave, set_time, prune, put_masters, put_slaves, install,
}

equal_sound : (a b : Bytes) → equal a b ≡ true → a ≡ b
unfolding equal
equal_sound [] [] h = refl
equal_sound [] (d ∷ b) h = let impossible : ⊥ = cc in elim impossible [ ]
equal_sound (c ∷ a) [] h = let impossible : ⊥ = cc in elim impossible [ ]
equal_sound (c ∷ a) (d ∷ b) h =
    let (first, more) = both (c == d) (equal a b) h in
    let same : c ≡ d = (==_iff c d).0 first in
    ap (λ x. x ∷ a) same ∙ ap (λ l. d ∷ l) (equal_sound a b more)
  where
    both : (x y : Bool) → (x && y) ≡ true → (x ≡ true) × (y ≡ true)
    both true true e = (refl, refl)
    both true false e = let impossible : ⊥ = cc in elim impossible [ ]
    both false y e = let impossible : ⊥ = cc in elim impossible [ ]

-- Every node stands under its address.
abbrev pub WellKeyed : NodeMap → Type 0
WellKeyed [] = Unit
WellKeyed ((addr, node) ∷ nodes) = (node.address ≡ addr) × WellKeyed nodes

lookup-address :
    (addr : Bytes) (nodes : NodeMap) (node : NodeRef)
    → WellKeyed nodes
    → lookup addr nodes ≡ some node
    → node.address ≡ addr
unfolding lookup
lookup-address addr [] node h e = let impossible : ⊥ = cc in elim impossible [ ]
lookup-address addr ((a, n) ∷ nodes) node (one, h) e =
    if_cases (λ x. x ≡ some node → node.address ≡ addr) (equal a addr)
      (λ same found.
        let here : n ≡ node = cc in
        ap (λ x. x.address) (sym here) ∙ (one ∙ equal_sound a addr same))
      (λ _ found. lookup-address addr nodes node h found) e

insert-WellKeyed :
    (addr : Bytes) (node : NodeRef) (nodes : NodeMap)
    → node.address ≡ addr
    → WellKeyed nodes
    → WellKeyed (insert addr node nodes)
unfolding insert
insert-WellKeyed addr node [] e h = (e, tt)
insert-WellKeyed addr node ((a, n) ∷ nodes) e (one, h) =
    if_cases WellKeyed (equal a addr) (λ _. (e, h))
      (λ _. (one, insert-WellKeyed addr node nodes e h))

-- Whether a slot lies in one of the ranges, both ends included.
abbrev pub covers : List (ℕ × ℕ) → ℕ → Bool
covers [] slot = false
covers ((first, last) ∷ ranges) slot = (leb first slot && leb slot last) || covers ranges slot

fill_from_lem :
    (node : NodeRef) (n j : ℕ) (slots : ℕ → Option NodeRef) (slot : ℕ)
    → fill_from node n j slots slot
      ≡ (if leb j slot && ltb slot (j + n) then some node else slots slot)
unfolding fill_from
fill_from_lem node zero j slots slot = ground arith
fill_from_lem node (suc n) j slots slot =
    ground (arith, fill_from_lem node n (suc j) (λ k. if k == j then some node else slots k) slot)

fill-covers :
    (node : NodeRef) (ranges : List (ℕ × ℕ)) (slots : ℕ → Option NodeRef) (slot : ℕ)
    → fill node ranges slots slot ≡ (if covers ranges slot then some node else slots slot)
unfolding fill
fill-covers node [] slots slot = refl
fill-covers node ((first, last) ∷ ranges) slots slot = ground (
  arith,
  fill-covers node ranges (fill_from node (suc last - first) first slots) slot,
  fill_from_lem node (suc last - first) first slots slot,
)

-- The address whose ranges cover a slot, the last one if there are several.
abbrev pub owner : Ranges → ℕ → Option Bytes
owner [] slot = none
owner ((addr, ranges) ∷ more) slot = elim (owner more slot) [
  | some a ↦ some a
  | none ↦ if covers ranges slot then some addr else none
]

-- The slot leads to a node with that address, or to what it led to before.
abbrev pub LeadsTo : Option Bytes → Option NodeRef → Option NodeRef → Type 0
LeadsTo none old new = new ≡ old
LeadsTo (some addr) old new = (node : NodeRef) × (new ≡ some node) × (node.address ≡ addr)

led_by :
    (o : Option Bytes) (new : Option NodeRef) {a b : Option NodeRef}
    → a ≡ b
    → LeadsTo o a new
    → LeadsTo o b new
led_by o new e h = subst (λ x. LeadsTo o x new) e h

covered :
    (later : Option Bytes) (here : Bool) (node : NodeRef) (addr : Bytes)
    (old before new : Option NodeRef)
    → node.address ≡ addr
    → before ≡ old
    → LeadsTo later (if here then some node else before) new
    → LeadsTo (elim later [ some a ↦ some a | none ↦ if here then some addr else none ]) old new
covered (some a) here node addr old before new e same h = h
covered none true node addr old before new e same h = (node, h, e)
covered none false node addr old before new e same h = h ∙ same

module _ {Float : Type 0} (N : Calls Float) where
  -- What a call of node_for leaves alone, and the address of its node.
  abbrev Finds : Bytes → Cluster → NodeRef × System N → Type 0
  Finds addr c (node, (c', w')) =
      (node.address ≡ addr)
      × (c'.slots ≡ c.slots)
      × (c'.nodes ≡ c.nodes)
      × (c'.slave_nodes ≡ c.slave_nodes)

  node_for-Finds :
      (addr : Bytes) (kind : ℕ) (nodes : NodeMap) (c : Cluster) (w : N.World)
      → WellKeyed nodes
      → Finds addr c (node_for N addr kind nodes (c, w))
  unfolding node_for
  node_for-Finds addr kind nodes c w h =
      go (lookup addr nodes) (λ node. lookup-address addr nodes node h)
    where
      go :
          (o : Option NodeRef)
          → ((node : NodeRef) → o ≡ some node → node.address ≡ addr)
          → Finds addr c (elim o [
            | some node ↦ (node, (c, w))
            | none ↦
                let node : NodeRef = record { id = c.next_id; address = addr; node_type = kind } in
                (node, (record c { next_id = suc c.next_id }, N.make_node node w))
          ])
      go (some node) found = (found node refl, refl, refl, refl)
      go none found = (refl, refl, refl, refl)

  -- After the loop over the masters.
  put_masters-LeadsTo :
      (t slot : ℕ) (ranges : Ranges) (s : System N)
      → WellKeyed s.0.nodes
      → LeadsTo (owner ranges slot) (s.0.slots slot) ((put_masters N t ranges s).0.slots slot)
        × WellKeyed (put_masters N t ranges s).0.nodes
        × ((put_masters N t ranges s).0.slave_nodes ≡ s.0.slave_nodes)
  unfolding put_masters
  put_masters-LeadsTo t slot [] s h = (refl, h, refl)
  put_masters-LeadsTo t slot ((addr, ranges) ∷ more) s h =
      let found = node_for N addr master_node s.0.nodes s in
      let (ea, es, en, ev) = node_for-Finds addr master_node s.0.nodes s.0 s.1 h in
      let (leads, keyed, same) =
        put_masters-LeadsTo t slot more
          (
            record found.1.0 {
              slots = fill found.0 ranges found.1.0.slots;
              node_times = set_time found.0.id t found.1.0.node_times;
              nodes = insert addr found.0 found.1.0.nodes;
            },
            found.1.1,
          )
          (insert-WellKeyed addr found.0 found.1.0.nodes ea (subst WellKeyed (sym en) h)) in
      (
        covered (owner more slot) (covers ranges slot) found.0 addr (s.0.slots slot)
            (found.1.0.slots slot) _ ea (ap (λ f. f slot) es)
            (led_by (owner more slot) _ (fill-covers found.0 ranges found.1.0.slots slot) leads),
        keyed,
        same ∙ ev,
      )

  -- The loop over the slaves leaves the masters alone.
  put_slaves-slots :
      (t : ℕ) (ranges : Ranges) (s : System N)
      → WellKeyed s.0.slave_nodes
      → ((put_slaves N t ranges s).0.slots ≡ s.0.slots)
        × ((put_slaves N t ranges s).0.nodes ≡ s.0.nodes)
  unfolding put_slaves
  put_slaves-slots t [] s h = (refl, refl)
  put_slaves-slots t ((addr, ranges) ∷ more) s h =
      let found = node_for N addr slave_node s.0.slave_nodes s in
      let (ea, es, en, ev) = node_for-Finds addr slave_node s.0.slave_nodes s.0 s.1 h in
      let (e1, e2) =
        put_slaves-slots t more
          (
            record found.1.0 {
              slaveslots = append_slave found.0 ranges found.1.0.slaveslots;
              node_times = set_time found.0.id t found.1.0.node_times;
              slave_nodes = insert addr found.0 found.1.0.slave_nodes;
            },
            found.1.1,
          )
          (insert-WellKeyed addr found.0 found.1.0.slave_nodes ea (subst WellKeyed (sym ev) h)) in
      (e1 ∙ es, e2 ∙ en)

  prune-WellKeyed :
      (t : ℕ) (times : ℕ → ℕ) (nodes : NodeMap) (w : N.World)
      → WellKeyed nodes
      → WellKeyed (prune N t times nodes w).0
  unfolding prune
  prune-WellKeyed t times [] w h = tt
  prune-WellKeyed t times ((addr, node) ∷ nodes) w (one, h) =
      if_cases {A = NodeMap × N.World} (λ x. WellKeyed x.0) (times node.id == t)
        (λ _. (one, prune-WellKeyed t times nodes w h))
        (λ _. prune-WellKeyed t times nodes (N.shutdown node.id w) h)

  -- On a cluster whose nodes all stand under their addresses, the part of Update under the lock makes each
  -- slot lead to a node with the address whose ranges, read before, hold it (the one that is visited last,
  -- if there are several), and leaves a slot that none holds as it was; the masters still stand under
  -- their addresses.
  pub install-LeadsTo :
      (t slot : ℕ) (found : Found) (c : Cluster) (w : N.World)
      → WellKeyed c.nodes
      → WellKeyed c.slave_nodes
      → LeadsTo (owner found.masters slot) (c.slots slot) ((install N t found (c, w)).0.slots slot)
        × WellKeyed (install N t found (c, w)).0.nodes
  unfolding install
  install-LeadsTo t slot found c w h hs =
      let masters = put_masters N t found.masters (record c { update_time = t }, w) in
      let (leads, keyed, same) =
        put_masters-LeadsTo t slot found.masters (record c { update_time = t }, w) h in
      let kept = prune N t masters.0.node_times masters.0.nodes masters.1 in
      let (e1, e2) =
        put_slaves-slots t found.slaves
          (record masters.0 { nodes = kept.0; slaveslots = λ _. [] }, kept.1)
          (subst WellKeyed (sym same) hs) in
      (
        subst (LeadsTo (owner found.masters slot) (c.slots slot)) (sym (ap (λ f. f slot) e1)) leads,
        subst WellKeyed (sym e2)
            (prune-WellKeyed t masters.0.node_times masters.0.nodes masters.1 keyed),
      )
