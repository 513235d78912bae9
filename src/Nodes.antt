-- ===== src/Nodes.antt =====
-- The blobs of a graph node, crates/sqlite-vec-src/src/sqlite-vec-diskann.c,
-- `diskann_validity_byte_size` to `diskann_node_clear_neighbor`. A blob is the list of its bytes, and
-- a rowid its eight bytes in memory.
pub mod Bytes
pub mod Slot
pub mod Count
use agos_memory.Base.{
  ℕ, zero, suc, ◌+◌, ◌*◌, ◌/◌, Bool, ◌&&◌, List, [], ◌∷◌, Option, none, some, if◌then◌else◌, take,
  replicate,
}
use agos_memory.Bitmap.{Bitmap, char_bit, bitmap_get, bitmap_set}

pub data QuantizerType : Type 0 where
  binary : QuantizerType
  int8 : QuantizerType

unfoldable pub diskann_quantized_vector_byte_size : QuantizerType → ℕ → ℕ
diskann_quantized_vector_byte_size binary dimensions = dimensions / char_bit
diskann_quantized_vector_byte_size int8 dimensions = dimensions

-- `memcpy` out of a blob: `n` bytes from an offset.
unfoldable pub copy_out : ℕ → ℕ → List ℕ → List ℕ
copy_out zero n blob = take n blob
copy_out (suc offset) n [] = []
copy_out (suc offset) n (x ∷ blob) = copy_out offset n blob

-- `memcpy` into a blob, and `memset` with the bytes written out.
unfoldable pub overlay : List ℕ → List ℕ → List ℕ
overlay [] blob = blob
overlay (b ∷ bytes) [] = []
overlay (b ∷ bytes) (x ∷ blob) = b ∷ overlay bytes blob

unfoldable pub copy_in : ℕ → List ℕ → List ℕ → List ℕ
unfolding overlay
copy_in zero bytes blob = overlay bytes blob
copy_in (suc offset) bytes [] = []
copy_in (suc offset) bytes (x ∷ blob) = x ∷ copy_in offset bytes blob

unfoldable pub diskann_validity_byte_size : ℕ → ℕ
diskann_validity_byte_size n_neighbors = n_neighbors / char_bit

unfoldable pub diskann_neighbor_ids_byte_size : ℕ → ℕ
diskann_neighbor_ids_byte_size n_neighbors = n_neighbors * 8

unfoldable pub diskann_neighbor_qvecs_byte_size : ℕ → QuantizerType → ℕ → ℕ
diskann_neighbor_qvecs_byte_size n_neighbors quantizer_type dimensions =
    n_neighbors * diskann_quantized_vector_byte_size quantizer_type dimensions

pub record NodeBlobs : Type 0 where
  pub validity : Bitmap
  pub neighbor_ids : List ℕ
  pub qvecs : List ℕ

-- The first argument tells that all three allocations succeed.
unfoldable pub diskann_node_init : Bool → ℕ → QuantizerType → ℕ → Option NodeBlobs
diskann_node_init allocated n_neighbors quantizer_type dimensions =
    if allocated
    then some (record {
      validity = replicate (diskann_validity_byte_size n_neighbors) 0;
      neighbor_ids = replicate (diskann_neighbor_ids_byte_size n_neighbors) 0;
      qvecs = replicate (diskann_neighbor_qvecs_byte_size n_neighbors quantizer_type dimensions) 0;
    })
    else none

-- The validity bits are read and written by the expressions of `bitmap_get` and `bitmap_set`.
unfoldable pub diskann_validity_get : Bitmap → ℕ → ℕ
diskann_validity_get validity i = bitmap_get validity i

unfoldable pub diskann_validity_set : Bitmap → ℕ → ℕ → Bitmap
diskann_validity_set validity i value = bitmap_set validity i value

unfoldable pub diskann_neighbor_id_get : List ℕ → ℕ → List ℕ
diskann_neighbor_id_get neighbor_ids i = copy_out (i * 8) 8 neighbor_ids

unfoldable pub diskann_neighbor_id_set : List ℕ → ℕ → List ℕ → List ℕ
diskann_neighbor_id_set neighbor_ids i rowid = copy_in (i * 8) rowid neighbor_ids

-- The pointer that is returned, with the bytes of one vector behind it.
unfoldable pub diskann_neighbor_qvec_get : List ℕ → ℕ → QuantizerType → ℕ → List ℕ
diskann_neighbor_qvec_get qvecs i quantizer_type dimensions =
    let size = diskann_quantized_vector_byte_size quantizer_type dimensions in
    copy_out (i * size) size qvecs

unfoldable pub diskann_neighbor_qvec_set : List ℕ → ℕ → List ℕ → QuantizerType → ℕ → List ℕ
diskann_neighbor_qvec_set qvecs i src_qvec quantizer_type dimensions =
    let size = diskann_quantized_vector_byte_size quantizer_type dimensions in
    copy_in (i * size) (take size src_qvec) qvecs

unfoldable pub diskann_node_set_neighbor :
    NodeBlobs → ℕ → List ℕ → List ℕ → QuantizerType → ℕ → NodeBlobs
diskann_node_set_neighbor node i rowid qvec quantizer_type dimensions = record {
  validity = diskann_validity_set node.validity i 1;
  neighbor_ids = diskann_neighbor_id_set node.neighbor_ids i rowid;
  qvecs = diskann_neighbor_qvec_set node.qvecs i qvec quantizer_type dimensions;
}

unfoldable pub diskann_node_clear_neighbor : NodeBlobs → ℕ → QuantizerType → ℕ → NodeBlobs
diskann_node_clear_neighbor node i quantizer_type dimensions =
    let size = diskann_quantized_vector_byte_size quantizer_type dimensions in
    record {
      validity = diskann_validity_set node.validity i 0;
      neighbor_ids = diskann_neighbor_id_set node.neighbor_ids i (replicate 8 0);
      qvecs = copy_in (i * size) (replicate size 0) node.qvecs;
    }
