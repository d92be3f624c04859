-- ===== src/Imap/Download.antt =====
-- src/imap/imapFlowAdapter.ts: the loop of fetchAttachment over the chunks of a download. Bytes are
-- numbers.
pub mod Window
use mailbridge_mcp.Common.{
  ℕ, ◌+◌, ◌-◌, Bool, true, false, Option, none, some, List, [], ◌∷◌, ◌++◌, ltb, leb, length,
  if◌then◌else◌, Result, ok, err,
}
use mailbridge_mcp.Common.Slices.{take, drop}
use mailbridge_mcp.Domain.Errors.{Error}

-- `download.content`: the chunks in the order that they come, and the error that ends them, if any,
-- as the method throws it.
pub record Stream : Type 0 where
  pub chunks : List (List ℕ)
  pub ending : Option Error

-- `Buffer.concat(chunks)` and `truncated`.
pub record Chunk : Type 0 where
  pub bytes : List ℕ
  pub truncated : Bool

abbrev pub before : List ℕ → Result Chunk → Result Chunk
before available (ok rest) = ok (record rest { bytes = available ++ rest.bytes })
before available (err e) = err e

abbrev pub at_end : Option Error → Result Chunk
at_end none = ok (record { bytes = []; truncated = false })
at_end (some e) = err e

-- The body of the loop; an error after the `break` is swallowed.
module _ (offset limit : ℕ) (ending : Option Error) where
  unfoldable pub read_chunks : ℕ → ℕ → List (List ℕ) → Result Chunk
  read_chunks position returned [] = at_end ending
  read_chunks position returned (buffer ∷ chunks) =
      let start_in_chunk = offset - position in
      let available = drop start_in_chunk buffer in
      let remaining = limit - returned in
      let skipped = read_chunks (position + length buffer) returned chunks in
      let rest = read_chunks (position + length buffer) (returned + length available) chunks in
      if leb (length buffer) start_in_chunk
      then skipped
      else if ltb remaining (length available)
      then ok (record { bytes = take remaining available; truncated = true })
      else before available rest

unfoldable pub read_stream : ℕ → ℕ → Stream → Result Chunk
unfolding read_chunks
read_stream offset limit stream = read_chunks offset limit stream.ending 0 0 stream.chunks
