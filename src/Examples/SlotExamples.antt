-- ===== src/Examples/SlotExamples.antt =====
-- The slot and the shard of a key, and the conversions of a reply.
use ipfs_nosql_frame.Prelude.{some, none, [], ◌≡◌, ◌≢◌, refl, ◌∷◌, ◌++◌, All, Bytes, codes, arith}
use ipfs_nosql_frame.Rediscluster.Replies.{equal}
use ipfs_nosql_frame.Rediscluster.ListsRead
use ipfs_nosql_frame.Rediscluster.Lists.{StringMap}
use ipfs_nosql_frame.Rediscluster.Slot
use ipfs_nosql_frame.Rediscluster.Slot.{crc16tab}
use ipfs_nosql_frame.Rediscluster.Tags

abbrev ascii : Bytes → Bytes
ascii b = b

prefix_plain : All (λ x. x ≢ b'{') (codes "user:")
prefix_plain = ground arith

tag_plain : All (λ x. x ≢ b'}') (codes "1000")
tag_plain = ground arith

hash_tag_example :
    (Slot.hash ascii (codes "user:" ++ b'{' ∷ (codes "1000" ++ b'}' ∷ codes ":name"))
      ≡ Slot.slot_of ascii (codes "1000"))
    × (Slot.hash ascii (codes "user:") ≡ Slot.slot_of ascii (codes "user:"))
hash_tag_example =
    Tags.hash_tag ascii (codes "user:") (codes "1000") (codes ":name") prefix_plain tag_plain
      (omega arith)

-- Published slots: 12182 for foo.
foo_slot : Slot.hash ascii (codes "foo") ≡ 12182
unfolding Slot.hash
foo_slot = refl

abbrev sent_pairs : StringMap
sent_pairs = (codes "a", codes "1") ∷ (codes "b", codes "2") ∷ (codes "a", codes "3") ∷ []

a_is_three : ListsRead.last_value (codes "a") sent_pairs none ≡ some (codes "3")
unfolding ListsRead.last_value equal
a_is_three = refl
