-- ===== src/Rediscluster/Cluster/Table.antt =====
-- cluster.go: how Update reads the reply to CLUSTER SLOTS: into two maps, from an address to the ends of
-- its ranges. They are association lists, in the order in which Update visits them, which Go leaves open.
use ipfs_nosql_frame.Prelude.{
  ℕ, ◌+◌, ◌-◌, ◌%◌, ◌^◌, ℤ, pos, negsuc, Option, none, some, List, [], ◌∷◌, ◌++◌, Bytes,
  if◌then◌else◌, Result, ok, err,
}
use ipfs_nosql_frame.Credis.Strconv.{format_int}
use ipfs_nosql_frame.Rediscluster.Replies.{
  Reply, ReplyList, ReplyError, nil, cons, equal, int, values,
}
use ipfs_nosql_frame.Rediscluster.Lists.{assign_string, assign_int}
use ipfs_nosql_frame.Rediscluster.Node.Errors.{NodeError}

-- map[string][]uint16, with the pairs of start and end.
abbrev pub Ranges : Type 0
Ranges = List (Bytes × List (ℕ × ℕ))

-- Adding a range under an address.
unfoldable pub add_range : Bytes → ℕ × ℕ → Ranges → Ranges
unfolding equal
add_range addr range [] = (addr, range ∷ []) ∷ []
add_range addr range ((a, ranges) ∷ more) =
    let rest = (a, ranges) ∷ add_range addr range more in
    if equal a addr then (a, ranges ++ range ∷ []) ∷ more else rest

abbrev with_port :
    Result (ReplyError NodeError) Bytes → Result (ReplyError NodeError) ℤ → Option Bytes
with_port (err e) port = none
with_port (ok ip) (err e) = none
with_port (ok ip) (ok port) = some (ip ++ b':' ∷ format_int port)

-- The address in the info of a node: values of at least two elements, a host and a port.
unfoldable pub node_address : Reply → Option Bytes
node_address reply = elim (values {E = NodeError} reply none) [
  | err e ↦ none
  | ok nil ↦ none
  | ok (cons ip nil) ↦ none
  | ok (cons ip (cons port more)) ↦ with_port (assign_string [] ip) (assign_int (pos 0) port)
]

-- uint16(n)
unfoldable pub uint16 : ℤ → ℕ
uint16 (pos n) = n % 2 ^ 16
uint16 (negsuc n) = 2 ^ 16 - 1 - n % 2 ^ 16

-- The loop over the slaves of a range.
unfoldable pub add_slaves : ℕ × ℕ → ReplyList → Ranges → Option Ranges
add_slaves range nil slaves = some slaves
add_slaves range (cons reply more) slaves = elim (node_address reply) [
  | none ↦ none
  | some addr ↦ add_slaves range more (add_range addr range slaves)
]

-- What the loop over the ranges collects: the bits of `nslots`, the masters, the slaves.
pub record Found : Type 0 where
  pub nslots : ℕ
  pub masters : Ranges
  pub slaves : Ranges

-- An int as its 64 bits.
unfoldable pub bits : ℤ → ℕ
bits (pos n) = n % 2 ^ 64
bits (negsuc n) = 2 ^ 64 - 1 - n % 2 ^ 64

-- nslots + (end - start + 1), in 64 bits
unfoldable pub count_slots : ℤ → ℤ → ℕ → ℕ
count_slots first last n = (n + (bits last + (2 ^ 64 - bits first) + 1)) % 2 ^ 64

abbrev add_found : ℤ → ℤ → Option Bytes → Option Ranges → Found → Option Found
add_found first last none slaves found = none
add_found first last (some addr) none found = none
add_found first last (some addr) (some slaves) found = some (record {
  nslots = count_slots first last found.nslots;
  masters = add_range addr (uint16 first, uint16 last) found.masters;
  slaves = slaves;
})

abbrev to_int : Reply → Option ℤ
to_int reply = elim (int {E = NodeError} reply none) [ ok n ↦ some n | err e ↦ none ]

-- One element of CLUSTER SLOTS; `none` is the error for an invalid response.
unfoldable pub add_info : Reply → Found → Option Found
add_info reply found = elim (values {E = NodeError} reply none) [
  | err e ↦ none
  | ok nil ↦ none
  | ok (cons a nil) ↦ none
  | ok (cons a (cons b nil)) ↦ none
  | ok (cons a (cons b (cons master slaves))) ↦ elim (to_int a) [
    | none ↦ none
    | some first ↦ elim (to_int b) [
      | none ↦ none
      | some last ↦
          add_found first last (node_address master)
            (add_slaves (uint16 first, uint16 last) slaves found.slaves) found
    ]
  ]
]

unfoldable pub read_info : ReplyList → Found → Option Found
read_info nil found = some found
read_info (cons reply more) found = elim (add_info reply found) [
  | none ↦ none
  | some found' ↦ read_info more found'
]
