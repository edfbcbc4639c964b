-- ===== src/Journal/Written.antt =====
-- What the host's file holds after an append.
use browser_bridge.Prelude.{
  ℕ, zero, suc, ◌+◌, ◌≤◌, ◌≡◌, refl, ap, sym, ◌∙◌, Option, none, some, List, [], ◌∷◌, ◌++◌, eqb,
  arith, if◌then◌else◌, length, take, drop, take-drop, length-append, length-drop-le, Option-cases,
  inl, inr,
}
use mathlib.Core.List.{append_assoc, append-nil}
use browser_bridge.Journal.{
  Append, Appended, Host, acknowledged, JournalError, check_ack, join_pieces, append_rounds, append,
  piece_bytes,
}

join_pieces_lem :
    (rounds size : ℕ) (bytes : List ℕ)
    → length bytes ≤ rounds
    → join_pieces rounds (suc size) bytes ≡ bytes
unfolding join_pieces
join_pieces_lem zero size [] h = refl
join_pieces_lem zero size (b ∷ bytes) h = absurd (omega arith)
join_pieces_lem (suc rounds) size [] h = refl
join_pieces_lem (suc rounds) size (b ∷ bytes) h =
    let rest =
      join_pieces_lem rounds size (drop size bytes) (omega (arith, length-drop-le size bytes)) in
    ap (λ (r : List ℕ). b ∷ (take size bytes ++ r)) rest
    ∙ ap (λ (r : List ℕ). b ∷ r) (take-drop size bytes)

-- A file that takes a chunk only at its end.
pub write_all : List Append → List ℕ → Option (List ℕ)
write_all [] file = some file
write_all (message ∷ sent) file =
    let rest = write_all sent (file ++ message.bytes) in
    if eqb message.offset (length file) then rest else none

append_rounds_step :
    (host : Host) (rounds size offset b : ℕ) (bytes : List ℕ)
    → let chunk = b ∷ take size bytes in
      let message : Append = record {
        offset = offset;
        bytes = join_pieces (length chunk) piece_bytes chunk;
      } in
      let rest = append_rounds host rounds (suc size) (offset + length chunk) (drop size bytes) in
      check_ack (offset + length chunk) (host message) ≡ none
      → append_rounds host (suc rounds) (suc size) offset (b ∷ bytes)
        ≡ record rest { sent = message ∷ rest.sent }
unfolding append_rounds
append_rounds_step host rounds size offset b bytes e = ground arith

append_rounds_failed :
    (host : Host) (rounds size offset b : ℕ) (bytes : List ℕ) (e : JournalError)
    → let chunk = b ∷ take size bytes in
      let message : Append = record {
        offset = offset;
        bytes = join_pieces (length chunk) piece_bytes chunk;
      } in
      check_ack (offset + length chunk) (host message) ≡ some e
      → (append_rounds host (suc rounds) (suc size) offset (b ∷ bytes)).error ≡ some e
unfolding append_rounds
append_rounds_failed host rounds size offset b bytes e h = ground arith

write_all_first :
    (message : Append) (sent : List Append) (file chunk : List ℕ)
    → message.offset ≡ length file
    → message.bytes ≡ chunk
    → write_all (message ∷ sent) file ≡ write_all sent (file ++ chunk)
unfolding write_all
write_all_first message sent file chunk at_end same =
    let found = ap (λ c. write_all sent (file ++ c)) same in ground arith

append_rounds-write_all :
    (host : Host) (rounds size : ℕ) (bytes file : List ℕ)
    → length bytes ≤ rounds
    → (append_rounds host rounds (suc size) (length file) bytes).error ≡ none
    → (write_all (append_rounds host rounds (suc size) (length file) bytes).sent file
        ≡ some (file ++ bytes))
      × ((append_rounds host rounds (suc size) (length file) bytes).offset ≡ length (file ++ bytes))
unfolding append_rounds write_all
append_rounds-write_all host zero size [] file h ok = (
  ap (λ (r : List ℕ). some r) (sym (append-nil file)),
  ap (λ (r : List ℕ). length r) (sym (append-nil file)),
)
append_rounds-write_all host zero size (b ∷ bytes) file h ok = absurd (omega arith)
append_rounds-write_all host (suc rounds) size [] file h ok = (
  ap (λ (r : List ℕ). some r) (sym (append-nil file)),
  ap (λ (r : List ℕ). length r) (sym (append-nil file)),
)
append_rounds-write_all host (suc rounds) size (b ∷ bytes) file h ok =
    let chunk : List ℕ = b ∷ take size bytes in
    let message : Append = record {
      offset = length file;
      bytes = join_pieces (length chunk) piece_bytes chunk;
    } in
    let rest =
      append_rounds host rounds (suc size) (length file + length chunk) (drop size bytes) in
    let whole : (file ++ chunk) ++ drop size bytes ≡ file ++ (b ∷ bytes) =
      append_assoc file chunk (drop size bytes)
      ∙ ap (λ (r : List ℕ). file ++ (b ∷ r)) (take-drop size bytes) in
    elim (Option-cases (check_ack (length file + length chunk) (host message))) [
      | inr (e, bad) ↦
          let failure = append_rounds_failed host rounds size (length file) b bytes e bad in
          absurd (ground arith)
      | inl fine ↦
          let state = append_rounds_step host rounds size (length file) b bytes fine in
          let longer : length (file ++ chunk) ≡ length file + length chunk =
            length-append file chunk in
          let go_on : (append_rounds host rounds (suc size) (length (file ++ chunk))
                (drop size bytes)).error
              ≡ none =
            rw longer (ap (λ (a : Appended). a.error) (sym state) ∙ ok) in
          let ih =
            append_rounds-write_all host rounds size (drop size bytes) (file ++ chunk)
              (omega (arith, length-drop-le size bytes)) go_on in
          let written : write_all rest.sent (file ++ chunk)
              ≡ some ((file ++ chunk) ++ drop size bytes) =
            rw longer at ih.0 in
          let ends : rest.offset ≡ length ((file ++ chunk) ++ drop size bytes) =
            rw longer at ih.1 in
          (
            ap (λ (a : Appended). write_all a.sent file) state
                ∙ write_all_first message rest.sent file chunk refl
                    (join_pieces_lem (length chunk) 32767 chunk (omega arith))
                ∙ written
                ∙ ap (λ (r : List ℕ). some r) whole,
            ap (λ (a : Appended). a.offset) state ∙ ends ∙ ap (λ (r : List ℕ). length r) whole,
          )
    ]

-- An `append` from the end of the file that ends without an error has sent messages whose chunks,
-- each written at its offset, give the file with all of the bytes behind it, and its offset is the
-- new end. It does so whatever the host answers otherwise.
pub append-write_all :
    (host : Host) (bytes file : List ℕ)
    → (append host (length file) bytes).error ≡ none
    → (write_all (append host (length file) bytes).sent file ≡ some (file ++ bytes))
      × ((append host (length file) bytes).offset ≡ length (file ++ bytes))
unfolding append
append-write_all host bytes file ok =
    append_rounds-write_all host (length bytes) 196607 bytes file (omega arith) ok

check_ack_fine :
    (expected next : ℕ) → next ≡ expected → check_ack expected (acknowledged (some next)) ≡ none
unfolding check_ack
check_ack_fine expected next same = ground arith

append_rounds_total :
    (host : Host) (rounds size offset : ℕ) (bytes : List ℕ)
    → ((m : Append) → host m ≡ acknowledged (some (m.offset + length m.bytes)))
    → (append_rounds host rounds (suc size) offset bytes).error ≡ none
unfolding append_rounds
append_rounds_total host zero size offset bytes honest = refl
append_rounds_total host (suc rounds) size offset [] honest = refl
append_rounds_total host (suc rounds) size offset (b ∷ bytes) honest =
    let chunk : List ℕ = b ∷ take size bytes in
    let message : Append = record {
      offset = offset;
      bytes = join_pieces (length chunk) piece_bytes chunk;
    } in
    let same =
      ap (λ (r : List ℕ). length r) (join_pieces_lem (length chunk) 32767 chunk (omega arith)) in
    let fine : check_ack (offset + length chunk) (host message) ≡ none =
      rw (honest message)
        (check_ack_fine (offset + length chunk) (offset + length message.bytes) (omega arith)) in
    let state = append_rounds_step host rounds size offset b bytes fine in
    ap (λ (a : Appended). a.error) state
    ∙ append_rounds_total host rounds size (offset + length chunk) (drop size bytes) honest

append_fine :
    (host : Host) (offset : ℕ) (bytes : List ℕ)
    → ((m : Append) → host m ≡ acknowledged (some (m.offset + length m.bytes)))
    → (append host offset bytes).error ≡ none
unfolding append
append_fine host offset bytes honest =
    append_rounds_total host (length bytes) 196607 offset bytes honest

-- With a host that acknowledges each chunk by the end of it, every `append` ends without an error
-- after finitely many messages, and those write all of the bytes behind the file.
pub append_total :
    (host : Host) (bytes file : List ℕ)
    → ((m : Append) → host m ≡ acknowledged (some (m.offset + length m.bytes)))
    → ((append host (length file) bytes).error ≡ none)
      × (write_all (append host (length file) bytes).sent file ≡ some (file ++ bytes))
append_total host bytes file honest =
    let fine : (append host (length file) bytes).error ≡ none =
      append_fine host (length file) bytes honest in
    (fine, (append-write_all host bytes file fine).0)
