-- ===== src/ManualTransfer/Pull.antt =====
-- crates/syntra-core/src/manual_transfer.rs: the pull of a file, from the first request to the result.
use syntra.Prelude.{
  ℕ, ◌+◌, ◌-◌, ◌*◌, ◌^◌, ◌≤◌, ◌<◌, ◌≡◌, refl, ap, true, false, none, List, [], ◌∷◌, arith, ◌==◌,
  length, min, inl, inr, ◌∙◌, ltb, Bool-cases, subst, sym,
}
use syntra.Proto.Error.{Bytes}
use syntra.Proto.Event.{ProtoEvent}
use syntra.Proto.Limits.{max_manual_file_chunk_size}
use syntra.ManualTransfer.Files.{Disk, Library}
use syntra.ManualTransfer.Record.{
  Record, completed, request, is_terminal, is_sending, is_transferring, terminal,
}
use syntra.ManualTransfer.Sender.{send_chunk, receive_result}
use syntra.ManualTransfer.Receiver.{write_chunk, complete_receiver}
use syntra.ManualTransfer.Messages.{handle}
use syntra.ManualTransfer.Conversation.{sent, handle_all, converse}
use syntra.ManualTransfer.Sends.{piece, length-piece, Reads, SendsAt, HasSent, send_piece, send_end}
use syntra.ManualTransfer.Receives.{Writes, ReceivesAt, write_piece, receive_end}

module _ {P : Type 0} where
  receive_result-completed :
      (s : Record P) (now : ℕ)
      → HasSent s
      → ((receive_result s true none now).0.state ≡ completed)
        × (sent (receive_result s true none now).1 ≡ [])
  unfolding receive_result terminal sent
  receive_result-completed s now a =
      let alive : is_terminal s.state ≡ false = rw (a.running) refl in
      let moving : is_transferring s.state ≡ true = rw (a.running) refl in
      let here : is_sending s.direction ≡ true = rw (a.way) refl in
      let all : (s.transferred == s.size) ≡ true = ground (arith, a.all) in
      rw (alive, here, moving, all, a.digested) ((refl, refl))

  module _ (lib : Library) (here there : Disk) where
    converse_quiet :
        (times : List ℕ) (s r : Record P) → converse lib here there times s r [] ≡ (s, r)
    unfolding converse handle_all
    converse_quiet [] s r = refl
    converse_quiet (now ∷ times) s r = converse_quiet times s r

    -- One message from each end.
    pub round :
        (now : ℕ) (times : List ℕ) (s r : Record P) (ask answer back : ProtoEvent)
        → sent (handle lib here s ask now).1 ≡ answer ∷ []
        → sent (handle lib there r answer now).1 ≡ back ∷ []
        → converse lib here there (now ∷ times) s r (ask ∷ [])
          ≡ converse lib here there times
              (handle lib here s ask now).0
              (handle lib there r answer now).0
              (back ∷ [])
    unfolding converse handle_all
    round now times s r ask answer back q m = rw (q, m) refl

    last_round :
        (now : ℕ) (times : List ℕ) (s r : Record P) (ask : ProtoEvent)
        → sent (handle lib here s ask now).1 ≡ []
        → converse lib here there (now ∷ times) s r (ask ∷ []) ≡ ((handle lib here s ask now).0, r)
    unfolding converse handle_all
    last_round now times s r ask q = rw (q) (converse_quiet times (handle lib here s ask now).0 r)

-- Both ends have reached the offset.
abbrev pub BothAt : {P : Type 0} → Bytes → ℕ → Record P × Record P → Type 0
BothAt file k ends = SendsAt file k ends.0 × ReceivesAt file k ends.1

-- Both ends have ended well.
abbrev pub BothCompleted : {P : Type 0} → Record P × Record P → Type 0
BothCompleted ends = (ends.0.state ≡ completed) × (ends.1.state ≡ completed)

module _ {P : Type 0} (lib : Library) (here there : Disk) (file : Bytes) (reads : Reads file here)
    (takes : Writes there) (small : length file < 2 ^ 64) where
  -- A request is answered with a piece, and the piece with the next request.
  piece_round :
      (now : ℕ) (times : List ℕ) (k : ℕ) (s r : Record P)
      → k < length file
      → SendsAt file k s
      → ReceivesAt file k r
      → (ends : Record P × Record P) × BothAt file (k + length (piece file k)) ends
        × (converse lib here there (now ∷ times) s r (request r.id k ∷ [])
            ≡ converse lib here there times ends.0 ends.1
                (request ends.1.id (k + length (piece file k)) ∷ []))
  unfolding handle
  piece_round now times k s r h a b =
      let (a_next, m, i) = send_piece lib here file reads k s now h small a in
      let (b_next, n, j) = write_piece lib there file takes k r now h small b in
      let next = k + length (piece file k) in
      (
        (
          (send_chunk lib here s k max_manual_file_chunk_size now).0,
          (write_chunk lib there r k (piece file k) now).0,
        ),
        (a_next, b_next),
        round lib here there now times s r (request r.id k)
            (ProtoEvent.manual_file_chunk s.id k (piece file k))
            (request (write_chunk lib there r k (piece file k) now).0.id next) m
            (n ∙ ap (λ id. request id next ∷ []) (sym j)),
      )

  -- The last request is answered with the digest, and the digest with the result.
  end_rounds :
      (now next : ℕ) (times : List ℕ) (s r : Record P)
      → SendsAt file (length file) s
      → ReceivesAt file (length file) r
      → BothCompleted
          (converse lib here there (now ∷ next ∷ times) s r (request r.id (length file) ∷ []))
  unfolding handle
  end_rounds now next times s r a b =
      let (a_next, m, i) = send_end lib here file reads s now a in
      let (done, n) = receive_end lib there file takes r now b in
      let s_next = (send_chunk lib here s (length file) max_manual_file_chunk_size now).0 in
      let r_next = (complete_receiver lib there r (lib.sha256 file) now).0 in
      let (result, quiet) = receive_result-completed s_next next a_next in
      let answer = ProtoEvent.manual_file_result r.id true none in
      subst (λ ends. BothCompleted ends)
        (sym (
          round lib here there now (next ∷ times) s r (request r.id (length file))
            (ProtoEvent.manual_file_complete s.id (lib.sha256 file)) answer m n
          ∙ last_round lib here there next times s_next r_next answer quiet))
        ((result, done))

  -- After a round for each of the times, the first bytes of the file are there.
  pub pull_reaches :
      (times : List ℕ) (k : ℕ) (s r : Record P)
      → k ≤ length file
      → k + length times * max_manual_file_chunk_size < length file + max_manual_file_chunk_size
      → SendsAt file k s
      → ReceivesAt file k r
      → BothAt file
          (min (length file) (k + length times * max_manual_file_chunk_size))
          (converse lib here there times s r (request r.id k ∷ []))
  unfolding converse
  pull_reaches [] k s r le lt a b =
      let q : k ≡ min (length file) (k + 0 * max_manual_file_chunk_size) = omega arith in
      subst (λ j. BothAt file j (s, r)) q ((a, b))
  pull_reaches (now ∷ times) k s r le lt a b =
      let h : k < length file = omega arith in
      let l = length-piece file k in
      let next = k + length (piece file k) in
      let (ends, (a_next, b_next), q) = piece_round now times k s r h a b in
      let total : min (length file) (next + length times * max_manual_file_chunk_size)
          ≡ min (length file) (k + length (now ∷ times) * max_manual_file_chunk_size) =
        omega arith in
      let reached = min (length file) (k + length (now ∷ times) * max_manual_file_chunk_size) in
      let rest = converse lib here there times ends.0 ends.1 (request ends.1.id next ∷ []) in
      subst (λ p. BothAt file reached p) (sym q)
        (subst (λ j. BothAt file j rest) total
          (pull_reaches times next ends.0 ends.1 (omega arith) (omega arith) a_next b_next))

  -- With times for all of its pieces, the digest and the result, the pull ends well at both ends.
  pub pull_completes :
      (times : List ℕ) (k : ℕ) (s r : Record P)
      → k ≤ length file
      → length file - k + 2 * max_manual_file_chunk_size ≤ length times * max_manual_file_chunk_size
      → SendsAt file k s
      → ReceivesAt file k r
      → BothCompleted (converse lib here there times s r (request r.id k ∷ []))
  pull_completes [] k s r le enough a b = absurd (omega arith)
  pull_completes (now ∷ []) k s r le enough a b = absurd (omega arith)
  pull_completes (now ∷ next ∷ times) k s r le enough a b =
      elim (Bool-cases (ltb k (length file))) [
        | inl t ↦
            let h : k < length file = ground arith in
            let l = length-piece file k in
            let (ends, (a_next, b_next), q) = piece_round now (next ∷ times) k s r h a b in
            subst (λ p. BothCompleted p) (sym q)
              (pull_completes (next ∷ times) (k + length (piece file k)) ends.0 ends.1 (omega arith)
                (omega arith) a_next b_next)
        | inr f ↦
            let whole : k ≡ length file = ground arith in
            subst
              (λ j.
                BothCompleted
                  (converse lib here there (now ∷ next ∷ times) s r (request r.id j ∷ [])))
              (sym whole)
              (end_rounds now next times s r (subst (λ j. SendsAt file j s) whole a)
                (subst (λ j. ReceivesAt file j r) whole b))
      ]
