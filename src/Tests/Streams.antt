-- ===== src/Tests/Streams.antt =====
-- The stream of a download at concrete chunks.
use paperless_webdav.Base.{
  ℕ, ◌≡◌, refl, none, some, List, [], ◌∷◌, nat_eq, ℕ_discrete, concat, false,
}
use paperless_webdav.Outcome.{ok}
use paperless_webdav.Client.Stream.{new_stream, read, seek}
use paperless_webdav.Client.Stream.Refines.{
  Call, ask_bytes, go_to, ask_offset, shut_down, run, replay, run-new_stream,
}

abbrev arriving : List (List ℕ)
arriving = (1 ∷ 2 ∷ 3 ∷ []) ∷ (4 ∷ []) ∷ (5 ∷ 6 ∷ []) ∷ []

abbrev calls : List Call
calls =
    ask_bytes (some 2)
    ∷ go_to 4 0
    ∷ go_to 1 0
    ∷ go_to 5 2
    ∷ ask_bytes none
    ∷ ask_offset
    ∷ shut_down
    ∷ []

seek_runs : (seek 4 0 (new_stream arriving)).0 ≡ ok 4
unfolding seek ℕ_discrete nat_eq
seek_runs = refl

read_after_seek : (read (some 1) (seek 4 0 (new_stream arriving)).1).0 ≡ 5 ∷ []
unfolding seek read ℕ_discrete nat_eq
read_after_seek = refl

run-new_stream_example :
    run calls (new_stream arriving)
    ≡ replay calls (record { ahead = concat arriving; at_byte = 0; shut = false })
run-new_stream_example = run-new_stream calls arriving
