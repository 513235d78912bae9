-- ===== src/Tests/Node.antt =====
-- A node of eight neighbours with vectors of one byte.
use agos_memory.Base.{
  ℕ, ◌+◌, ltb, ◌≡◌, refl, true, List, [], ◌∷◌, some, arith, replicate, ◌==◌, if◌then◌else◌,
}
use agos_memory.Bitmap.{bitmap_get}
use agos_memory.Nodes.Count.{count_loop, diskann_validity_count, diskann_validity_count-set}
use agos_memory.Nodes.{
  diskann_validity_get, diskann_validity_set, binary, diskann_quantized_vector_byte_size, NodeBlobs,
  diskann_node_init, diskann_node_set_neighbor, diskann_node_clear_neighbor,
  diskann_validity_byte_size, diskann_neighbor_ids_byte_size, diskann_neighbor_qvecs_byte_size,
}
use agos_memory.Nodes.Slot.{slot, IsNode, slot-set_neighbor, slot-clear_neighbor}

abbrev empty_node : NodeBlobs
empty_node = record { validity = 0 ∷ []; neighbor_ids = replicate 64 0; qvecs = replicate 8 0 }

init_runs : diskann_node_init true 8 binary 8 ≡ some empty_node
unfolding diskann_node_init diskann_validity_byte_size diskann_neighbor_ids_byte_size
    diskann_neighbor_qvecs_byte_size diskann_quantized_vector_byte_size
init_runs = refl

empty_node-IsNode : IsNode 8 binary 8 empty_node
unfolding diskann_quantized_vector_byte_size
empty_node-IsNode = record {
  bytes = (omega arith, tt);
  validity_size = refl;
  ids_size = refl;
  qvecs_size = refl;
}

abbrev row : List ℕ
row = 42 ∷ replicate 7 0

byte_size : diskann_quantized_vector_byte_size binary 8 ≡ 1
unfolding diskann_quantized_vector_byte_size
byte_size = refl

slot-set_neighbor_example :
    slot binary 8 (diskann_node_set_neighbor empty_node 3 row (0xa5 ∷ []) binary 8) 3 ≡ (
      if 3 == 3
      then record { valid = 1; rowid = row; qvec = 0xa5 ∷ [] }
      else slot binary 8 empty_node 3)
slot-set_neighbor_example =
    slot-set_neighbor 8 binary 8 empty_node empty_node-IsNode 3 (omega arith) row (0xa5 ∷ []) 3 refl
      (omega (arith, byte_size))

slot-clear_neighbor_example :
    slot binary 8 (diskann_node_clear_neighbor empty_node 3 binary 8) 5 ≡ (
      if 3 == 5
      then record {
        valid = 0;
        rowid = replicate 8 0;
        qvec = replicate (diskann_quantized_vector_byte_size binary 8) 0;
      }
      else slot binary 8 empty_node 5)
slot-clear_neighbor_example =
    slot-clear_neighbor 8 binary 8 empty_node empty_node-IsNode 3 (omega arith) 5

diskann_validity_count-set_example :
    diskann_validity_count (diskann_validity_set (5 ∷ []) 1 1) 8
    ≡ diskann_validity_count (5 ∷ []) 8 + (if ltb 1 8 then 1 else 0)
unfolding diskann_validity_get bitmap_get
diskann_validity_count-set_example =
    diskann_validity_count-set (5 ∷ []) 1 (omega arith, tt) (omega arith) refl 8

count_runs : diskann_validity_count (7 ∷ []) 8 ≡ 3
unfolding diskann_validity_count count_loop diskann_validity_get bitmap_get
count_runs = refl
