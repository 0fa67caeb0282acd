-- ===== src/Client/Stream/Refines.antt =====
-- A streamed download reads as a plain string of bytes with a cursor, however the bytes are cut into
-- chunks.
use mathlib.Core.Path.{subst}
use paperless_webdav.Base.{
  ℕ, zero, suc, ◌+◌, ◌-◌, ◌≤◌, ◌<◌, min, ◌≡◌, refl, sym, ap, ◌∙◌, ◌≢◌, ◌⊎◌, inl, inr, Bool, true,
  false, Option, none, some, List, [], ◌∷◌, ◌++◌, append-nil, append_assoc, ◌==◌, if◌then◌else◌,
  nat_eq, length, take, drop, concat, take_all, if_cases, take-append, drop-append, drop_onward,
  drop-length, if_map, length-take_onward, ltb, arith, Bool-cases,
}
use paperless_webdav.Outcome.{Outcome, ok, raise, os_error}
use paperless_webdav.Client.Stream.{
  DocumentStream, stream_chunk_size, drain, fill, read_all, read_up_to, read, skip, seek, tell,
  close, new_stream,
}

-- The bytes ahead of the cursor, and where it stands.
pub record Cursor : Type 0 where
  pub ahead : List ℕ
  pub at_byte : ℕ
  pub shut : Bool

-- What a stream has still to give.
abbrev pub bytes_ahead : DocumentStream → List ℕ
bytes_ahead s = s.buffer ++ concat s.chunks

unfoldable pub view : DocumentStream → Cursor
view s = record { ahead = bytes_ahead s; at_byte = s.position; shut = s.closed }

-- To take the next `n` bytes.
abbrev pub advance : ℕ → Cursor → Cursor
advance n c = record c { ahead = drop n c.ahead; at_byte = c.at_byte + length (take n c.ahead) }

abbrev pub size_or_all : Option ℕ → List ℕ → ℕ
size_or_all none bytes = length bytes
size_or_all (some n) bytes = n

abbrev pub read_at : Option ℕ → Cursor → List ℕ × Cursor
read_at size c =
    if c.shut
    then ([], c)
    else (take (size_or_all size c.ahead) c.ahead, advance (size_or_all size c.ahead) c)

abbrev pub skip_at : ℕ → Cursor → Cursor
skip_at n c = if c.shut then c else advance n c

abbrev pub seek_at : ℕ → ℕ → Cursor → Outcome ℕ × Cursor
seek_at offset whence c =
    if whence == 0
    then (if ltb offset c.at_byte
        then (raise os_error, c)
        else let next = skip_at (offset - c.at_byte) c in (ok next.at_byte, next))
    else (raise os_error, c)

drain-concat :
    (chunks : List (List ℕ)) (buffer : List ℕ) → drain chunks buffer ≡ buffer ++ concat chunks
unfolding drain
drain-concat [] buffer = sym (append-nil buffer)
drain-concat (chunk ∷ chunks) buffer =
    drain-concat chunks (buffer ++ chunk) ∙ append_assoc buffer chunk (concat chunks)

-- Filling the buffer moves bytes, and stops only with enough of them or at the end.
fill_moves :
    (n : ℕ) (chunks : List (List ℕ)) (buffer : List ℕ)
    → ((fill n chunks buffer).1 ++ concat (fill n chunks buffer).0 ≡ buffer ++ concat chunks)
      × ((n ≤ length (fill n chunks buffer).1) ⊎ ((fill n chunks buffer).0 ≡ []))
unfolding fill
fill_moves n [] buffer = (refl, inr refl)
fill_moves n (chunk ∷ chunks) buffer = elim (Bool-cases (ltb (length buffer) n)) [
  | inl e ↦ rw e (
    (fill_moves n chunks (buffer ++ chunk)).0 ∙ append_assoc buffer chunk (concat chunks),
    (fill_moves n chunks (buffer ++ chunk)).1,
  )
  | inr e ↦ rw e (refl, inl (ground arith))
]

take_ahead :
    (n : ℕ) (buffer : List ℕ) (chunks : List (List ℕ))
    → (n ≤ length buffer) ⊎ (chunks ≡ [])
    → (take n buffer ≡ take n (buffer ++ concat chunks))
      × (drop n buffer ++ concat chunks ≡ drop n (buffer ++ concat chunks))
take_ahead n buffer chunks (inl h) =
    (sym (take-append n buffer (concat chunks) h), sym (drop-append n buffer (concat chunks) h))
take_ahead n buffer chunks (inr e) = rw e (
  ap (take n) (sym (append-nil buffer)),
  append-nil (drop n buffer) ∙ ap (drop n) (sym (append-nil buffer)),
)

abbrev pub view_next {ℓ} : {A : Type ℓ} → A × DocumentStream → A × Cursor
view_next (a, s) = (a, view s)

read_all-view :
    (s : DocumentStream)
    → view_next (read_all s)
      ≡ (take (length (bytes_ahead s)) (bytes_ahead s), advance (length (bytes_ahead s)) (view s))
unfolding read_all view
read_all-view s = λ i.
    (whole i, record { ahead = rest i; at_byte = s.position + length (whole i); shut = s.closed })
  where
    whole : drain s.chunks s.buffer ≡ take (length (bytes_ahead s)) (bytes_ahead s)
    whole = drain-concat s.chunks s.buffer ∙ sym (take_all _ (bytes_ahead s) (omega arith))

    rest : [] ≡ drop (length (bytes_ahead s)) (bytes_ahead s)
    rest = sym (drop-length (bytes_ahead s))

read_up_to-view :
    (n : ℕ) (s : DocumentStream)
    → view_next (read_up_to n s) ≡ (take n (bytes_ahead s), advance n (view s))
unfolding read_up_to view
read_up_to-view n s = λ i.
    (taken i, record { ahead = left i; at_byte = s.position + length (taken i); shut = s.closed })
  where
    moved :
        ((fill n s.chunks s.buffer).1 ++ concat (fill n s.chunks s.buffer).0 ≡ bytes_ahead s)
        × ((n ≤ length (fill n s.chunks s.buffer).1) ⊎ ((fill n s.chunks s.buffer).0 ≡ []))
    moved = fill_moves n s.chunks s.buffer

    taken : take n (fill n s.chunks s.buffer).1 ≡ take n (bytes_ahead s)
    taken = (take_ahead n _ _ moved.1).0 ∙ ap (take n) moved.0

    left :
        drop n (fill n s.chunks s.buffer).1 ++ concat (fill n s.chunks s.buffer).0
        ≡ drop n (bytes_ahead s)
    left = (take_ahead n _ _ moved.1).1 ∙ ap (drop n) moved.0

pub read-view :
    (size : Option ℕ) (s : DocumentStream) → view_next (read size s) ≡ read_at size (view s)
unfolding read view
read-view none s = if_map view_next s.closed _ _ _ _ (λ _. refl) (λ _. read_all-view s)
read-view (some n) s = if_map view_next s.closed _ _ _ _ (λ _. refl) (λ _. read_up_to-view n s)

min_positive : (m : ℕ) → m ≢ 0 → (min m stream_chunk_size ≤ m) × (0 < min m stream_chunk_size)
min_positive m h = omega arith

abbrev cursor : List ℕ → ℕ → Bool → Cursor
cursor bytes p b = record { ahead = bytes; at_byte = p; shut = b }

skip_at_zero : (bytes : List ℕ) (p : ℕ) (b : Bool) → cursor bytes p b ≡ skip_at 0 (cursor bytes p b)
skip_at_zero bytes p true = refl
skip_at_zero bytes p false = λ i. cursor bytes (no_more i) false
  where
    no_more : p ≡ p + 0
    no_more = omega arith

-- To skip `n` bytes, read `m` of them and skip those that are left.
skip_next :
    (m n : ℕ) (bytes : List ℕ) (p : ℕ) (b : Bool)
    → m ≤ n
    → skip_at
        (n - length (read_at (some m) (cursor bytes p b)).0)
        (read_at (some m) (cursor bytes p b)).1
      ≡ skip_at n (cursor bytes p b)
skip_next m n bytes p true h = refl
skip_next m n bytes p false h = λ i. cursor (drop_onward m n bytes h i) (position i) false
  where
    position :
        p + length (take m bytes) + length (take (n - length (take m bytes)) (drop m bytes))
        ≡ p + length (take n bytes)
    position = omega (arith, length-take_onward m n bytes h)

-- A read that brings nothing has met the end.
skip_end :
    (m n : ℕ) (bytes : List ℕ) (p : ℕ) (b : Bool)
    → 0 < m
    → length (read_at (some m) (cursor bytes p b)).0 ≡ 0
    → (read_at (some m) (cursor bytes p b)).1 ≡ skip_at n (cursor bytes p b)
skip_end m n bytes p true h e = refl
skip_end zero n bytes p false h e = absurd (omega arith)
skip_end (suc m) n (x ∷ bytes) p false h e = absurd (omega arith)
skip_end (suc m) zero [] p false h e = refl
skip_end (suc m) (suc n) [] p false h e = refl

pub eq_zero : (n : ℕ) → (n == 0) ≡ true → n ≡ 0
eq_zero n e = ground arith

pub ne_zero : (n : ℕ) → (n == 0) ≡ false → n ≢ 0
ne_zero n e = ground arith

-- With fuel for every byte the loop skips as many bytes as there are to skip, or all that are left.
skip-view : (fuel n : ℕ) (s : DocumentStream) → n ≤ fuel → view (skip fuel n s) ≡ skip_at n (view s)
unfolding skip view
skip-view zero n s h = rw (none_left) (skip_at_zero (bytes_ahead s) s.position s.closed)
  where
    none_left : n ≡ 0
    none_left = omega arith
skip-view (suc fuel) n s h =
    if_cases Skips (n == 0) _ _
      (λ e.
        subst (λ k. view s ≡ skip_at k (view s)) (sym (eq_zero n e)) (skip_at_zero _ s.position _))
      λ e.
        if_cases Skips (length chunk == 0) _ _
          (λ none_left.
            ap (λ t. t.1) reads
            ∙ skip_end m n (bytes_ahead s) s.position s.closed (min_positive n (ne_zero n e)).1
                (sym (ap (λ t. length t.0) reads) ∙ eq_zero _ none_left))
          λ some_left.
            skip-view fuel (n - length chunk) next (fewer (ne_zero _ some_left))
            ∙ ap (λ t. skip_at (n - length t.0) t.1) reads
            ∙ skip_next m n (bytes_ahead s) s.position s.closed (min_positive n (ne_zero n e)).0
  where
    Skips : DocumentStream → Type 0
    Skips t = view t ≡ skip_at n (view s)

    m : ℕ
    m = min n stream_chunk_size

    chunk : List ℕ
    chunk = (read (some m) s).0

    next : DocumentStream
    next = (read (some m) s).1

    reads : view_next (read (some m) s) ≡ read_at (some m) (view s)
    reads = read-view (some m) s

    fewer : length chunk ≢ 0 → n - length chunk ≤ fuel
    fewer h' = omega arith

-- One call on a stream.
pub data Call : Type 0 where
  ask_bytes : Option ℕ → Call
  go_to : ℕ → ℕ → Call
  ask_offset shut_down : Call

-- What the call returns.
pub data Answer : Type 0 where
  bytes : List ℕ → Answer
  offset : Outcome ℕ → Answer

abbrev pub bytes_of {ℓ} : {S : Type ℓ} → List ℕ × S → Answer × S
bytes_of (b, s) = (bytes b, s)

abbrev pub offset_of {ℓ} : {S : Type ℓ} → Outcome ℕ × S → Answer × S
offset_of (o, s) = (offset o, s)

unfoldable pub call : Call → DocumentStream → Answer × DocumentStream
unfolding read seek close
call (ask_bytes size) s = bytes_of (read size s)
call (go_to to whence) s = offset_of (seek to whence s)
call ask_offset s = (offset (ok (tell s)), s)
call shut_down s = (bytes [], close s)

-- The same call on a cursor.
unfoldable pub call_at : Call → Cursor → Answer × Cursor
call_at (ask_bytes size) c = bytes_of (read_at size c)
call_at (go_to to whence) c = offset_of (seek_at to whence c)
call_at ask_offset c = (offset (ok c.at_byte), c)
call_at shut_down c = (bytes [], record c { shut = true })

pub seek-view :
    (to whence : ℕ) (s : DocumentStream) → view_next (seek to whence s) ≡ seek_at to whence (view s)
unfolding seek view
seek-view to whence s =
    if_map view_next (whence == 0) _ _ _ _
      (λ _.
        if_map view_next (ltb to s.position) _ _ _ _ (λ _. refl)
          (λ _. ap (λ c. (ok c.at_byte, c)) (skip-view _ _ s (omega arith))))
      (λ _. refl)

call-view : (c : Call) (s : DocumentStream) → view_next (call c s) ≡ call_at c (view s)
unfolding call call_at close view
call-view (ask_bytes size) s = ap bytes_of (read-view size s)
call-view (go_to to whence) s = ap offset_of (seek-view to whence s)
call-view ask_offset s = refl
call-view shut_down s = refl

-- The answers to a sequence of calls, on a stream and on a cursor.
unfoldable pub run : List Call → DocumentStream → List Answer
unfolding call
run [] s = []
run (c ∷ calls) s = (call c s).0 ∷ run calls (call c s).1

unfoldable pub replay : List Call → Cursor → List Answer
unfolding call_at
replay [] c = []
replay (k ∷ calls) c = (call_at k c).0 ∷ replay calls (call_at k c).1

run-replay : (calls : List Call) (s : DocumentStream) → run calls s ≡ replay calls (view s)
unfolding run replay
run-replay [] s = refl
run-replay (k ∷ calls) s = λ i.
    ((ap (λ t. t.0) (call-view k s) i)
      ∷ ((run-replay calls (call k s).1 ∙ ap (λ t. replay calls t.1) (call-view k s)) i))

-- Whatever calls of read, seek, tell and close a client makes on the stream of a download, in
-- whatever order, their answers, refused seeks included, are those of a cursor at the start of the
-- whole document: they do not depend on the chunks in which the document arrives.
pub run-new_stream :
    (calls : List Call) (chunks : List (List ℕ))
    → run calls (new_stream chunks)
      ≡ replay calls (record { ahead = concat chunks; at_byte = 0; shut = false })
unfolding view
run-new_stream calls chunks = run-replay calls (new_stream chunks)
