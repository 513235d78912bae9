-- ===== src/Nodes/Slot.antt =====
-- A neighbour slot after it is set or cleared.
use agos_memory.Base.{
  ℕ, ◌*◌, ◌<◌, ◌≡◌, ◌≢◌, refl, inl, inr, arith, false, List, length, take-all, replicate,
  length-replicate, ◌==◌, ==_iff, if◌then◌else◌, Bool-cases, subst, ◌∙◌,
}
use agos_memory.Bitmap.{bitmap_set}
use agos_memory.Bitmap.Access.{IsBytes, bitmap_get-bitmap_set}
use agos_memory.Nodes.{
  QuantizerType, diskann_quantized_vector_byte_size, copy_out, copy_in, NodeBlobs,
  diskann_validity_get, diskann_validity_set, diskann_neighbor_id_get, diskann_neighbor_id_set,
  diskann_neighbor_qvec_get, diskann_neighbor_qvec_set, diskann_node_set_neighbor,
  diskann_node_clear_neighbor,
}
use agos_memory.Nodes.Bytes.{copy_out-slot_self, copy_out-slot_other}

-- What a slot holds: its validity bit, its rowid and its vector.
pub record Neighbor : Type 0 where
  pub valid : ℕ
  pub rowid : List ℕ
  pub qvec : List ℕ

abbrev pub slot : QuantizerType → ℕ → NodeBlobs → ℕ → Neighbor
slot q dimensions node i = record {
  valid = diskann_validity_get node.validity i;
  rowid = diskann_neighbor_id_get node.neighbor_ids i;
  qvec = diskann_neighbor_qvec_get node.qvecs i q dimensions;
}

-- The blobs have room for `m` neighbours.
pub record IsNode (m : ℕ) (q : QuantizerType) (dimensions : ℕ) (node : NodeBlobs) : Type 0 where
  pub bytes : IsBytes node.validity
  pub validity_size : length node.validity * 8 ≡ m
  pub ids_size : length node.neighbor_ids ≡ m * 8
  pub qvecs_size : length node.qvecs ≡ m * diskann_quantized_vector_byte_size q dimensions

module _ (m : ℕ) (q : QuantizerType) (dimensions : ℕ) (node : NodeBlobs)
    (w : IsNode m q dimensions node) (i : ℕ) (l : i < m) where
  abbrev size : ℕ
  size = diskann_quantized_vector_byte_size q dimensions

  abbrev written : ℕ → List ℕ → List ℕ → NodeBlobs
  written v rowid qvec = record {
    validity = bitmap_set node.validity i v;
    neighbor_ids = copy_in (i * 8) rowid node.neighbor_ids;
    qvecs = copy_in (i * size) qvec node.qvecs;
  }

  slot-written :
      (v : ℕ) (rowid qvec : List ℕ) (j : ℕ)
      → length rowid ≡ 8
      → length qvec ≡ size
      → slot q dimensions (written v rowid qvec) j ≡ (
          if i == j
          then record { valid = if v == 0 then 0 else 1; rowid = rowid; qvec = qvec }
          else slot q dimensions node j)
  unfolding diskann_validity_get diskann_neighbor_id_get diskann_neighbor_qvec_get
  slot-written v rowid qvec j e f =
      let bit =
        bitmap_get-bitmap_set node.validity i j v w.bytes (omega (arith, w.validity_size)) in
      elim (Bool-cases (i == j)) [
        | inl here ↦
            let same : i ≡ j = (==_iff i j).0 here in
            rw here (
              build (bit ∙ rw here refl)
                (subst (λ k. copy_out (k * 8) 8 (copy_in (i * 8) rowid node.neighbor_ids) ≡ rowid)
                  same (copy_out-slot_self m 8 i rowid node.neighbor_ids w.ids_size e l))
                (subst (λ k. copy_out (k * size) size (copy_in (i * size) qvec node.qvecs) ≡ qvec)
                  same (copy_out-slot_self m size i qvec node.qvecs w.qvecs_size f l)))
        | inr there ↦
            let other : i ≢ j = apart_from i j there in
            rw there (
              build (bit ∙ rw there refl)
                (copy_out-slot_other 8 i j rowid node.neighbor_ids e other)
                (copy_out-slot_other size i j qvec node.qvecs f other))
      ]
    where
      apart_from : (a b : ℕ) → (a == b) ≡ false → a ≢ b
      apart_from a b h = ground arith

      build :
          {a b : ℕ} {r s u v : List ℕ}
          → a ≡ b
          → r ≡ s
          → u ≡ v
          → Path Neighbor
              (record { valid = a; rowid = r; qvec = u })
              (record { valid = b; rowid = s; qvec = v })
      build x y z = λ t. record { valid = x t; rowid = y t; qvec = z t }

  -- The slot that is set holds what is set and is valid, the others hold what they held.
  pub slot-set_neighbor :
      (rowid qvec : List ℕ) (j : ℕ)
      → length rowid ≡ 8
      → length qvec ≡ diskann_quantized_vector_byte_size q dimensions
      → slot q dimensions (diskann_node_set_neighbor node i rowid qvec q dimensions) j ≡ (
          if i == j
          then record { valid = 1; rowid = rowid; qvec = qvec }
          else slot q dimensions node j)
  unfolding diskann_node_set_neighbor diskann_validity_set diskann_neighbor_id_set
      diskann_neighbor_qvec_set
  slot-set_neighbor rowid qvec j e f =
      rw (take-all size qvec (omega (arith, f))) (slot-written 1 rowid qvec j e f)

  -- The slot that is cleared is invalid and holds zeros, the others hold what they held.
  pub slot-clear_neighbor :
      (j : ℕ)
      → slot q dimensions (diskann_node_clear_neighbor node i q dimensions) j ≡ (
          if i == j
          then record {
            valid = 0;
            rowid = replicate 8 0;
            qvec = replicate (diskann_quantized_vector_byte_size q dimensions) 0;
          }
          else slot q dimensions node j)
  unfolding diskann_node_clear_neighbor diskann_validity_set diskann_neighbor_id_set
  slot-clear_neighbor j =
      slot-written 0 (replicate 8 0) (replicate size 0) j refl (length-replicate {A = ℕ} size 0)
