-- ===== src/Java/Certificates/Blocks.antt =====
-- The loop of readBlocks ends, and with all blocks of a file.
use jvm_vendors.Base.{
  ℕ, zero, suc, ◌<◌, ◌≡◌, ap, none, some, List, [], ◌∷◌, arith, length, Option-cases, inl, inr,
}
use jvm_vendors.Java.Keystore.{Bytes, Block}
use jvm_vendors.Base.Result.{ok}
use jvm_vendors.Base.Text.{Text}
use jvm_vendors.Java.Certificates.{FileSystem, Decode, blocks_of, opened_blocks, read_blocks}

-- `pem.Decode` takes the blocks from the front of some bytes until it finds none.
pub data Decodes (decode : Decode) : Bytes → List Block → Type 0 where
  done : {b : Bytes} → decode b ≡ none → Decodes decode b []
  more :
      {b : Bytes} {block : Block} {rest : Bytes} {bs : List Block}
      → decode b ≡ some (block, rest)
      → Decodes decode rest bs
      → Decodes decode b (block ∷ bs)

-- A block takes some of the bytes.
unfoldable pub IsShrinking : Decode → Type 0
IsShrinking decode =
    (b : Bytes) (block : Block) (rest : Bytes)
    → decode b ≡ some (block, rest)
    → length rest < length b

module _ (decode : Decode) (shrinks : IsShrinking decode) where
  blocks_of-fuel :
      (fuel : ℕ) (b : Bytes) → length b < fuel → Decodes decode b (blocks_of decode fuel b)
  unfolding blocks_of IsShrinking
  blocks_of-fuel zero b h = absurd (omega arith)
  blocks_of-fuel (suc fuel) b h = elim (Option-cases (decode b)) [
    | inl e ↦ rw e (done e)
    | inr ((block, rest), e) ↦
        let shorter : length rest < length b = shrinks b block rest e in
        rw e (more e (blocks_of-fuel fuel rest (omega (arith, shorter, h))))
  ]

  -- A file that can be read is decoded to its end: the blocks are those that `pem.Decode` takes from
  -- the front of the bytes until it finds none, if each block takes some of the bytes.
  pub read_blocks-Decodes :
      (fs : FileSystem) (f : Text) (b : Bytes)
      → fs.read_file f ≡ some b
      → (bs : List Block) × (read_blocks fs decode f ≡ ok bs) × Decodes decode b bs
  unfolding read_blocks opened_blocks
  read_blocks-Decodes fs f b h = (
    blocks_of decode (suc (length b)) b,
    ap (opened_blocks decode f) h,
    blocks_of-fuel (suc (length b)) b (omega arith),
  )
