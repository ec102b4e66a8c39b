-- ===== src/ManualTransfer/Conversation.antt =====
-- crates/syntra-core/src/manual_transfer.rs: the records at both ends of one transfer, and the messages
-- that they send to each other, in order and without loss.
use syntra.Prelude.{ℕ, ◌≡◌, refl, ap, List, [], ◌∷◌, ◌++◌}
use syntra.Proto.Event.{ProtoEvent}
use syntra.ManualTransfer.Files.{Disk, Library}
use syntra.ManualTransfer.Record.{Record, ManualAction, send_to, notify_with}
use syntra.ManualTransfer.Messages.{handle}

module _ {P : Type 0} where
  -- The messages among the actions.
  unfoldable pub sent : List (ManualAction P) → List ProtoEvent
  sent [] = []
  sent (send_to peer event ∷ actions) = event ∷ sent actions
  sent (notify_with event ∷ actions) = sent actions

  pub sent-append : (xs ys : List (ManualAction P)) → sent (xs ++ ys) ≡ sent xs ++ sent ys
  unfolding sent
  sent-append [] ys = refl
  sent-append (send_to peer event ∷ xs) ys = ap (λ es. event ∷ es) (sent-append xs ys)
  sent-append (notify_with event ∷ xs) ys = sent-append xs ys

  module _ (lib : Library) where
    -- Each message in turn; the answers are in the order of the messages.
    unfoldable pub handle_all : Disk → Record P → List ProtoEvent → ℕ → Record P × List ProtoEvent
    handle_all disk r [] now = (r, [])
    handle_all disk r (event ∷ events) now =
        let (changed, actions) = handle lib disk r event now in
        let (last, more) = handle_all disk changed events now in (last, sent actions ++ more)

    -- In each round, at the time that the list gives, the first record gets the messages for it and the
    -- second one its answers; the answers to those are for the next round.
    unfoldable pub converse :
        Disk → Disk → List ℕ → Record P → Record P → List ProtoEvent → Record P × Record P
    converse here there [] s r inbox = (s, r)
    converse here there (now ∷ times) s r inbox =
        let (s_next, outbox) = handle_all here s inbox now in
        let (r_next, back) = handle_all there r outbox now in
        converse here there times s_next r_next back
