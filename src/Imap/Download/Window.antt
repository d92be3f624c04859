-- ===== src/Imap/Download/Window.antt =====
-- The bytes that fetchAttachment reads, whatever the chunks.
use mailbridge_mcp.Common.{
  ℕ, ◌+◌, ◌-◌, ◌≤◌, ◌≡◌, ◌∙◌, ap, true, false, Option, none, some, List, [], ◌∷◌, ◌++◌, arith, ltb,
  leb, length, length-append, if◌then◌else◌, Result, ok, err, Bool-cases, Option-cases, inl, inr,
}
use mailbridge_mcp.Common.Slices.{
  take, drop, concat, take-append_short, take-append_long, drop-append_short, drop-append_long,
  drop-all, take-all,
}
use mailbridge_mcp.Domain.Errors.{Error}
use mailbridge_mcp.Imap.Download.{Stream, Chunk, before, read_chunks, read_stream}

-- What a window of `n` bytes shows of `content`, and what follows if it shows all of it.
abbrev pub shown : List ℕ → Option Error → Result Chunk
shown content none = ok (record { bytes = content; truncated = false })
shown content (some e) = err e

abbrev pub window : ℕ → List ℕ → Option Error → Result Chunk
window n content ending =
    if ltb n (length content)
    then ok (record { bytes = take n content; truncated = true })
    else shown content ending

window-append :
    (n : ℕ) (xs ys : List ℕ) (ending : Option Error)
    → length xs ≤ n
    → before xs (window (n - length xs) ys ending) ≡ window n (xs ++ ys) ending
window-append n xs ys none h = ground (arith, length-append xs ys, take-append_long n xs ys h)
window-append n xs ys (some e) h = ground (arith, length-append xs ys, take-append_long n xs ys h)

module _ (offset limit : ℕ) (ending : Option Error) where
  read_chunks-window :
      (position returned : ℕ) (chunks : List (List ℕ))
      → returned ≤ limit
      → read_chunks offset limit ending position returned chunks
        ≡ window (limit - returned) (drop (offset - position) (concat chunks)) ending
  unfolding read_chunks
  read_chunks-window position returned [] h =
      ground (arith, Option-cases ending, drop-all {A = ℕ} (offset - position) [])
  read_chunks-window position returned (buffer ∷ chunks) h =
      let available = drop (offset - position) buffer in
      let remaining = limit - returned in
      elim (Bool-cases (leb (length buffer) (offset - position))) [
        | inl skips ↦ ground (
          arith,
          skips,
          drop-append_long (offset - position) buffer (concat chunks),
          read_chunks-window (position + length buffer) returned chunks h,
        )
        | inr shows ↦ elim (Bool-cases (ltb remaining (length available))) [
          | inl more ↦ ground (
            arith,
            shows,
            more,
            length-append available (concat chunks),
            drop-append_short (offset - position) buffer (concat chunks),
            take-append_short remaining available (concat chunks),
          )
          | inr fits ↦
              let past : offset - (position + length buffer) ≡ 0 = ground (arith, shows) in
              let left : limit - (returned + length available) ≡ remaining - length available =
                omega arith in
              let later : drop (offset - (position + length buffer)) (concat chunks)
                  ≡ concat chunks =
                ap (λ k. drop k (concat chunks)) past in
              ground (
                arith,
                shows,
                fits,
                left,
                later,
                window-append remaining available (concat chunks) ending (ground (arith, fits)),
                drop-append_short (offset - position) buffer (concat chunks),
                read_chunks-window (position + length buffer) (returned + length available) chunks
                    (ground (arith, fits)),
              )
        ]
      ]

-- Whatever the chunks of a download, the window of `limit` bytes from `offset` is what is read, and it
-- is said to be truncated exactly when there are bytes after it; an error that ends the download is
-- thrown exactly when no byte after the window comes before it.
pub read_stream-window :
    (offset limit : ℕ) (stream : Stream)
    → read_stream offset limit stream
      ≡ window limit (drop offset (concat stream.chunks)) stream.ending
unfolding read_stream
read_stream-window offset limit stream =
    read_chunks-window offset limit stream.ending 0 0 stream.chunks (omega arith)
    ∙ (ap (λ n. window n (drop (offset - 0) (concat stream.chunks)) stream.ending) (omega arith)
        ∙ ap (λ n. window limit (drop n (concat stream.chunks)) stream.ending) (omega arith))

-- A download that is complete shows the window and says whether more follows.
pub window_complete :
    (n : ℕ) (content : List ℕ)
    → window n content none
      ≡ ok (record { bytes = take n content; truncated = ltb n (length content) })
window_complete n content = ground (arith, Bool-cases (ltb n (length content)), take-all n content)
