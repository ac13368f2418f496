-- ===== src/Engine/Queue/Chunk.antt =====
-- What `validate_chunk` lets through.
use action_stream.Prelude.{
  Bool, true, false, ◌≡◌, refl, ◌⊎◌, ◌↔◌, List, [], ◌∷◌, all, All, ok, arith,
}
use action_stream.Engine.Queue.{
  RawChunk, matrix, batch, other_shape, not_a_tensor, validate_chunk, has_no_entry,
}

module _ {E : Type 0} (is_finite : E → Bool) where
  abbrev pub Finite : List E → Type 0
  Finite = All (λ x. is_finite x ≡ true)

  row-All : (row : List E) → (all is_finite row ≡ true) ↔ Finite row
  row-All [] = (λ h. tt, λ h. refl)
  row-All (x ∷ row) = (λ h. ground (arith, row-All row), λ h. ground (arith, row-All row))

  all-All : (rows : List (List E)) → (all (all is_finite) rows ≡ true) ↔ All Finite rows
  all-All [] = (λ h. tt, λ h. refl)
  all-All (row ∷ rows) = (
    λ h. ground (arith, row-All row, all-All rows),
    λ h. ground (arith, row-All row, all-All rows),
  )

  -- the [T,A] rows of a chunk whose batch size is one
  abbrev pub HasRows : RawChunk E → List (List E) → Type 0
  HasRows raw rows = (raw ≡ matrix rows) ⊎ (raw ≡ batch (rows ∷ []))

  -- not empty, neither in time nor in the width of an action
  abbrev pub NotEmpty : List (List E) → Type 0
  NotEmpty rows = has_no_entry is_finite rows ≡ false

  -- A chunk is accepted exactly when it is a matrix, or a batch of one matrix, that has an entry and
  -- in which every number is finite; the rows that come out are those of the matrix.
  validate_chunk_iff :
      (raw : RawChunk E) (rows : List (List E))
      → (validate_chunk is_finite raw ≡ ok rows)
        ↔ (HasRows raw rows × NotEmpty rows × All Finite rows)
  unfolding validate_chunk
  validate_chunk_iff (matrix rows') rows = (
    λ h. ground (arith, all-All rows, all-All rows'),
    λ h. ground (arith, all-All rows, all-All rows'),
  )
  validate_chunk_iff (batch []) rows = (λ h. cc, λ h. ground arith)
  validate_chunk_iff (batch (rows' ∷ [])) rows = (
    λ h. ground (arith, all-All rows, all-All rows'),
    λ h. ground (arith, all-All rows, all-All rows'),
  )
  validate_chunk_iff (batch (rows' ∷ more ∷ rest)) rows = (λ h. cc, λ h. ground arith)
  validate_chunk_iff other_shape rows = (λ h. cc, λ h. ground arith)
  validate_chunk_iff not_a_tensor rows = (λ h. cc, λ h. ground arith)
