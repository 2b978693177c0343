-- ===== src/Instructions/Image/Gather.antt =====
-- src/instructions/image.cpp: the sparse gathers, whose reservation is too small.
use sirit.Base.{ℕ, List, ◌∷◌, arith, ◌≡◌, true, fault, out_of_bounds, some}
use sirit.Spirv.{Platform}
use sirit.Stream.{SpvId, Stream}
use sirit.Emission.{emit}
use sirit.Stream.Operands.{valid_ids}
use sirit.Emission.Short.{IsFull, emit_short}
use sirit.Instructions.Image.{op_image_sparse_gather, op_image_sparse_dref_gather}

module _ ⦃p : Platform⦄ where
  -- `OpImageSparseGather` reserves no word for the mask of the image operands. With one, and valid
  -- ids, it writes outside of the vector where that ends at the cursor.
  op_image_sparse_gather_overflow :
      (result_type sampled_image coordinate component : SpvId) (mask : ℕ) (operands : List SpvId)
      (bound : ℕ) (s : Stream)
      → valid_ids (result_type ∷ sampled_image ∷ coordinate ∷ component ∷ operands) ≡ true
      → IsFull s
      → emit
          (op_image_sparse_gather result_type sampled_image coordinate component
            (some mask)
            operands)
          bound
          s
        ≡ fault out_of_bounds
  unfolding op_image_sparse_gather
  op_image_sparse_gather_overflow t i c k mask operands bound s h full =
      emit_short _ bound s (ground arith) (omega arith) full

  -- `OpImageSparseDrefGather` reserves no word for the mask of the image operands. With one, and
  -- valid ids, it writes outside of the vector where that ends at the cursor.
  op_image_sparse_dref_gather_overflow :
      (result_type sampled_image coordinate dref : SpvId) (mask : ℕ) (operands : List SpvId)
      (bound : ℕ) (s : Stream)
      → valid_ids (result_type ∷ sampled_image ∷ coordinate ∷ dref ∷ operands) ≡ true
      → IsFull s
      → emit
          (op_image_sparse_dref_gather result_type sampled_image coordinate dref
            (some mask)
            operands)
          bound
          s
        ≡ fault out_of_bounds
  unfolding op_image_sparse_dref_gather
  op_image_sparse_dref_gather_overflow t i c k mask operands bound s h full =
      emit_short _ bound s (ground arith) (omega arith) full

  -- The two sparse gathers reserve no word for the mask of the image operands. With one, and valid
  -- ids, both write outside of the vector where that ends at the cursor.
  pub sparse_gathers_overflow :
      (result_type sampled_image coordinate extra : SpvId) (mask : ℕ) (operands : List SpvId)
      (bound : ℕ) (s : Stream)
      → valid_ids (result_type ∷ sampled_image ∷ coordinate ∷ extra ∷ operands) ≡ true
      → IsFull s
      → (emit
            (op_image_sparse_gather result_type sampled_image coordinate extra (some mask) operands)
            bound
            s
          ≡ fault out_of_bounds)
        × (emit
              (op_image_sparse_dref_gather result_type sampled_image coordinate extra
                (some mask)
                operands)
              bound
              s
            ≡ fault out_of_bounds)
  sparse_gathers_overflow t i c k mask operands bound s h full = (
    op_image_sparse_gather_overflow t i c k mask operands bound s h full,
    op_image_sparse_dref_gather_overflow t i c k mask operands bound s h full,
  )
