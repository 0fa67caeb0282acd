-- ===== src/Client/Stream/Ranges.antt =====
-- What a range request and the OPDS body read from the stream of a download.
use paperless_webdav.Base.{
  ℕ, ◌+◌, ◌≤◌, ◌<◌, ◌≡◌, ap, ◌∙◌, false, some, List, [], nat_eq, length, take, drop, concat, All,
  arith, ltb, ℕ_discrete, ◌-◌,
}
use paperless_webdav.Outcome.{ok}
use paperless_webdav.Client.Stream.{DocumentStream, new_stream, stream_chunk_size, read, seek}
use paperless_webdav.Client.Stream.Refines.{
  bytes_ahead, view, view_next, read_at, seek_at, read-view, seek-view,
}

seek_start :
    (to : ℕ) (bytes : List ℕ)
    → seek_at to 0 (record { ahead = bytes; at_byte = 0; shut = false }) ≡ (
      ok (length (take to bytes)),
      record { ahead = drop to bytes; at_byte = length (take to bytes); shut = false },
    )
unfolding nat_eq ℕ_discrete
seek_start to bytes =
    rw (not_behind, from_start)
      (λ i. (ok (position i), record { ahead = drop to bytes; at_byte = position i; shut = false }))
  where
    not_behind : ltb to 0 ≡ false
    not_behind = ground arith

    from_start : to - 0 ≡ to
    from_start = omega arith

    position : 0 + length (take to bytes) ≡ length (take to bytes)
    position = omega arith

-- To seek to an offset of a download and to read `n` bytes answers with the bytes of the document
-- from that offset on, `n` of them at most; past the end the cursor stays at the end.
pub read-seek :
    (offset n : ℕ) (chunks : List (List ℕ))
    → ((read (some n) (seek offset 0 (new_stream chunks)).1).0
        ≡ take n (drop offset (concat chunks)))
      × ((seek offset 0 (new_stream chunks)).0 ≡ ok (length (take offset (concat chunks))))
unfolding view
read-seek offset n chunks = (
  ap (λ t. t.0) (read-view (some n) (seek offset 0 (new_stream chunks)).1)
      ∙ ap (λ t. (read_at (some n) t.1).0) sought,
  ap (λ t. t.0) sought,
)
  where
    sought : view_next (seek offset 0 (new_stream chunks)) ≡ (
      ok (length (take offset (concat chunks))),
      record {
        ahead = drop offset (concat chunks);
        at_byte = length (take offset (concat chunks));
        shut = false;
      },
    )
    sought = seek-view offset 0 (new_stream chunks) ∙ seek_start offset (concat chunks)

-- No chunk of a body is empty or longer than `CHUNK_SIZE`.
abbrev pub IsChunk : List ℕ → Type 0
IsChunk chunk = (0 < length chunk) × (length chunk ≤ stream_chunk_size)

-- A body in chunks is all that the stream had to give.
abbrev pub Sends : DocumentStream → List (List ℕ) × DocumentStream → Type 0
Sends s (body, last) =
    (concat body ≡ bytes_ahead s)
    × All IsChunk body
    × (bytes_ahead last ≡ [])
    × (last.position ≡ s.position + length (bytes_ahead s))

-- What one read of an open stream brings, and leaves.
record Brings (n : ℕ) (s : DocumentStream) (chunk : List ℕ) (next : DocumentStream) : Type 0 where
  brought : chunk ≡ take n (bytes_ahead s)
  ahead : bytes_ahead next ≡ drop n (bytes_ahead s)
  position : next.position ≡ s.position + length (take n (bytes_ahead s))
  is_open : next.closed ≡ false
