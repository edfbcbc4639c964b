-- ===== src/Journal.antt =====
-- packages/extension/src/recording-journal.ts: a recording that is streamed to the native host in
-- chunks, each of which the host acknowledges. Bytes are numbers; base64 is the platform's and
-- loses nothing, so a message carries the bytes. A promise is named by the id of its message.
pub mod Written
pub mod Tests
use browser_bridge.Prelude.{
  ℕ, zero, suc, ◌+◌, Bool, true, false, Option, none, some, List, [], ◌∷◌, ◌++◌, String, eqb,
  if◌then◌else◌, length, take, drop, Key, string_key,
}
use browser_bridge.Prelude.JsMap.{JsMap, get, has, put, delete}

pub data JournalError : Type 0 where
  disconnected timed_out post_failed invalid_acknowledgement : JournalError
  refused : String → JournalError

-- What the host acknowledged: the `nextOffset` of its result, if that is a number.
pub data Settled : Type 0 where
  acknowledged : Option ℕ → Settled
  rejected : JournalError → Settled

-- `waiting` holds the ids of the messages that are not acknowledged, `settled` what came of others.
pub record Transport : Type 0 where
  pub waiting : JsMap String (Unit {0})
  pub settled : JsMap String Settled
  pub connected : Bool

pub finish : String → Settled → Transport → Transport
finish id result st = record st {
  waiting = delete id st.waiting;
  settled = put id result st.settled;
}

-- `send` with a fresh message id; `posted` tells whether the port took the message.
pub send : String → Bool → Transport → Transport
send id posted st =
    if st.connected
    then (let waits = record st { waiting = put id tt st.waiting } in
        if posted then waits else finish id (rejected post_failed) waits)
    else record st { settled = put id (rejected disconnected) st.settled }

-- The callback of the timer, which has not been cleared as long as the message waits.
pub times_out : String → Transport → Transport
times_out id st = if has id st.waiting then finish id (rejected timed_out) st else st

-- `handle` for an acknowledgement, with its `error` if that is not empty.
pub handle : String → Option String → Option ℕ → Transport → Transport
handle id error next_offset st =
    if has id st.waiting
    then finish id
        (elim error [ none ↦ acknowledged next_offset | some text ↦ rejected (refused text) ]) st
    else st

pub reject_all : JsMap String (Unit {0}) → JsMap String Settled → JsMap String Settled
reject_all [] settled = settled
reject_all ((id, _) ∷ rest) settled = reject_all rest (put id (rejected disconnected) settled)

pub disconnect : Transport → Transport
disconnect st = record st { waiting = []; settled = reject_all st.waiting st.settled }

abbrev pub chunk_bytes : ℕ
chunk_bytes = 196608

abbrev pub piece_bytes : ℕ
piece_bytes = 32768

-- The inner loop, which joins the text of a chunk from pieces: a round for each byte is enough.
pub join_pieces : ℕ → ℕ → List ℕ → List ℕ
join_pieces zero size bytes = []
join_pieces (suc rounds) size [] = []
join_pieces (suc rounds) size (b ∷ bytes) =
    take size (b ∷ bytes) ++ join_pieces rounds size (drop size (b ∷ bytes))

pub record Append : Type 0 where
  pub offset : ℕ
  pub bytes : List ℕ

-- What an `append` has sent, in order, the offset it ends with, and its error.
pub record Appended : Type 0 where
  pub sent : List Append
  pub offset : ℕ
  pub error : Option JournalError

-- What the host answers to a message: the result of the promise of `send`.
abbrev pub Host : Type 0
Host = Append → Settled

pub check_ack : ℕ → Settled → Option JournalError
check_ack expected (rejected e) = some e
check_ack expected (acknowledged none) = some invalid_acknowledgement
check_ack expected (acknowledged (some next)) =
    if eqb next expected then none else some invalid_acknowledgement

-- The outer loop of `append`: a round for each byte is enough, since a chunk is not empty.
pub append_rounds : Host → ℕ → ℕ → ℕ → List ℕ → Appended
append_rounds host zero size offset bytes = record { sent = []; offset = offset; error = none }
append_rounds host (suc rounds) size offset [] = record { sent = []; offset = offset; error = none }
append_rounds host (suc rounds) size offset (b ∷ bytes) =
    let chunk = take size (b ∷ bytes) in
    let message : Append = record {
      offset = offset;
      bytes = join_pieces (length chunk) piece_bytes chunk;
    } in
    let rest = append_rounds host rounds size (offset + length chunk) (drop size (b ∷ bytes)) in
    elim (check_ack (offset + length chunk) (host message)) [
      | some e ↦ record { sent = message ∷ []; offset = offset; error = some e }
      | none ↦ record rest { sent = message ∷ rest.sent }
    ]

-- One `append` at a time: the offset is read at its start and moves after each acknowledgement.
pub append : Host → ℕ → List ℕ → Appended
append host offset bytes = append_rounds host (length bytes) chunk_bytes offset bytes
