-- ===== src/Journal/Tests.antt =====
-- Appends to a journal.
use browser_bridge.Prelude.{
  ◌≡◌, refl, ◌+◌, true, none, some, List, [], ◌∷◌, ◌++◌, ℕ, length, string_key,
}
use browser_bridge.Prelude.JsMap.{get, put, delete}
use browser_bridge.Journal.{
  Host, acknowledged, rejected, timed_out, disconnected, invalid_acknowledgement, Transport, finish,
  send, times_out, handle, reject_all, disconnect, check_ack, join_pieces, append_rounds, append,
}
use browser_bridge.Journal.Written.{write_all, append-write_all, append_total}

journal : Unit {0}
unfolding finish send times_out handle reject_all disconnect check_ack join_pieces append_rounds
    append get put delete
journal = tt

abbrev empty : Transport
empty = record { waiting = []; settled = []; connected = true }

-- A late acknowledgement does not undo a timeout, and a disconnection ends what still waits.
late :
    get "a" (handle "a" none (some 3) (times_out "a" (send "a" true empty))).settled
    ≡ some (rejected timed_out)
unfolding journal
late = refl

ended : get "b" (disconnect (send "b" true empty)).settled ≡ some (rejected disconnected)
unfolding journal
ended = refl

abbrev honest : Host
honest m = acknowledged (some (m.offset + length m.bytes))

abbrev lossy : Host
lossy m = acknowledged (some m.offset)

-- An acknowledgement of fewer bytes ends the append.
short : (append lossy 1 (5 ∷ 6 ∷ [])).error ≡ some invalid_acknowledgement
unfolding journal
short = refl

-- With chunks of two bytes, five bytes take three messages.
chunks :
    (append_rounds honest 5 2 0 (1 ∷ 2 ∷ 3 ∷ 4 ∷ 5 ∷ [])).sent
    ≡ record { offset = 0; bytes = 1 ∷ 2 ∷ [] }
      ∷ (record { offset = 2; bytes = 3 ∷ 4 ∷ [] } ∷ (record { offset = 4; bytes = 5 ∷ [] } ∷ []))
unfolding journal
chunks = refl

abbrev file : List ℕ
file = 9 ∷ []

abbrev line : List ℕ
line = 5 ∷ 6 ∷ []

append-write_all_example :
    (write_all (append honest (length file) line).sent file ≡ some (file ++ line))
    × ((append honest (length file) line).offset ≡ length (file ++ line))
unfolding journal
append-write_all_example = append-write_all honest line file refl

append_total_example :
    ((append honest (length file) line).error ≡ none)
    × (write_all (append honest (length file) line).sent file ≡ some (file ++ line))
append_total_example = append_total honest line file (λ m. refl)
