-- ===== src/Client/Stream.antt =====
-- `_PaperlessDocumentStream` of src/paperless_webdav/paperless_client.py, the file-like body of a
-- streamed download, and `_StreamBody` of src/paperless_webdav/opds.py, which sends it on. `chunks`
-- is what the iterator over the response has still to yield; a transfer that breaks off is not
-- modelled. A size of `none` stands for `None` and for every negative size.
pub mod Refines
pub mod Ranges
use paperless_webdav.Base.{
  ℕ, zero, suc, ◌+◌, ◌-◌, min, ◌≡◌, Bool, true, false, Option, none, some, List, [], ◌∷◌, ◌++◌, Eq,
  ◌==◌, if◌then◌else◌, nat_eq, length, take, drop, ltb,
}
use paperless_webdav.Outcome.{Outcome, ok, raise, os_error}

-- `_CHUNK_SIZE`
abbrev pub stream_chunk_size : ℕ
stream_chunk_size = 65536

pub record DocumentStream : Type 0 where
  pub chunks : List (List ℕ)
  pub buffer : List ℕ
  pub position : ℕ
  pub closed : Bool

-- `__init__`
abbrev pub new_stream : List (List ℕ) → DocumentStream
new_stream chunks = record { chunks = chunks; buffer = []; position = 0; closed = false }

-- `for chunk in self._iterator: self._buffer.extend(chunk)`
unfoldable pub drain : List (List ℕ) → List ℕ → List ℕ
drain [] buffer = buffer
drain (chunk ∷ chunks) buffer = drain chunks (buffer ++ chunk)

-- `while len(self._buffer) < size`: the chunks that are left, and the buffer
unfoldable pub fill : ℕ → List (List ℕ) → List ℕ → List (List ℕ) × List ℕ
fill size [] buffer = ([], buffer)
fill size (chunk ∷ chunks) buffer =
    let more = fill size chunks (buffer ++ chunk) in
    if ltb (length buffer) size then more else (chunk ∷ chunks, buffer)

read_all : DocumentStream → List ℕ × DocumentStream
unfolding drain
read_all s =
    let content = drain s.chunks s.buffer in
    (content, record s { chunks = []; buffer = []; position = s.position + length content })

read_up_to : ℕ → DocumentStream → List ℕ × DocumentStream
unfolding fill
read_up_to size s =
    let (chunks, buffer) = fill size s.chunks s.buffer in
    let content = take size buffer in
    (
      content,
      record s {
        chunks = chunks;
        buffer = drop size buffer;
        position = s.position + length content;
      },
    )

unfoldable pub read : Option ℕ → DocumentStream → List ℕ × DocumentStream
unfolding read_all read_up_to
read size s =
    if s.closed then ([], s) else elim size [ none ↦ read_all s | some n ↦ read_up_to n s ]

-- `while remaining > 0`, on fuel
unfoldable pub skip : ℕ → ℕ → DocumentStream → DocumentStream
unfolding read
skip zero remaining s = s
skip (suc fuel) remaining s =
    let (chunk, next) = read (some (min remaining stream_chunk_size)) s in
    let more = skip fuel (remaining - length chunk) next in
    if remaining == 0 then s else if length chunk == 0 then next else more

-- The fuel is the number of bytes to skip: each round skips one at least.
unfoldable pub seek : ℕ → ℕ → DocumentStream → Outcome ℕ × DocumentStream
unfolding skip
seek offset whence s =
    if whence == 0
    then (if ltb offset s.position
        then (raise os_error, s)
        else let next = skip (offset - s.position) (offset - s.position) s in
          (ok next.position, next))
    else (raise os_error, s)

abbrev pub tell : DocumentStream → ℕ
tell s = s.position

unfoldable pub close : DocumentStream → DocumentStream
close s = record s { closed = true }

-- `_StreamBody.__iter__`, on fuel: the chunks that it yields, and the stream
unfoldable pub stream_body : ℕ → DocumentStream → List (List ℕ) × DocumentStream
unfolding read
stream_body zero s = ([], s)
stream_body (suc fuel) s =
    let (chunk, next) = read (some stream_chunk_size) s in
    let (rest, last) = stream_body fuel next in
    if length chunk == 0 then ([], next) else (chunk ∷ rest, last)
