-- ===== src/Fd/Delivery/Course.antt =====
-- The steps of a direction in which the receiver tells the number that it expects only where `on_i_frame_received` of
-- src/proto/fd/protocol.rs always does: by the RR for a frame that it accepts.
use tinyproto_rust.Base.{ℕ, Bool, true, false, List, [], ◌∷◌, ◌++◌, Bytes, ◌==◌, ◌≡◌}
use tinyproto_rust.Fd.IQueueControl.{get_next_frame_to_receive, move_to_next_frame_to_receive}
use tinyproto_rust.Fd.Delivery.{
  Link, Step, accept, send, deliver, refuse, answer, confirm, rewind, lose_frame, lose_ack, Steps,
  stay, go,
}

-- Whether a step tells the number that is expected, for which the handler may have no occasion.
abbrev pub is_answer : (addr : ℕ) (s s' : Link) → Step addr s s' → Bool
is_answer addr s _ (accept _ nr payload queue' idx small room stored) = false
is_answer addr s _ (send _ idx f unsent queued) = false
is_answer addr s _ (deliver _ ns payload rest e test) = false
is_answer addr s _ (refuse _ ns payload rest e test) = false
is_answer addr s _ (answer _) = true
is_answer addr s _ (confirm _ nr rest seqs sender' confirmed e ran) = false
is_answer addr s _ (rewind _) = false
is_answer addr s _ (lose_frame _ before frame after e) = false
is_answer addr s _ (lose_ack _ before nr after e) = false

pub data Course (addr : ℕ) : Link → Link → Type 0 where
  begin : (s : Link) → Course addr s s
  silently :
      (s s' s'' : Link)
      → Course addr s s'
      → (step : Step addr s' s'') → is_answer addr s' s'' step ≡ false
      → Course addr s s''
  -- `on_i_frame_received`, for the frame that is expected: it is delivered, and an RR tells the number after it
  acknowledged :
      (s s' : Link) (ns : ℕ) (payload : Bytes) (rest : List (ℕ × Bytes))
      → Course addr s s'
      → s'.wire ≡ (ns, payload) ∷ rest
      → (ns == get_next_frame_to_receive s'.receiver) ≡ true
      → Course addr s (record s' {
        wire = rest;
        receiver = move_to_next_frame_to_receive s'.receiver;
        delivered = s'.delivered ++ payload ∷ [];
        acks =
            s'.acks ++ get_next_frame_to_receive (move_to_next_frame_to_receive s'.receiver) ∷ [];
      })

pub Course-join : (addr : ℕ) (a b c : Link) → Course addr a b → Course addr b c → Course addr a c
Course-join addr a b _ one (begin _) = one
Course-join addr a b _ one (silently _ c d more step quiet) =
    silently a c d (Course-join addr a b c one more) step quiet
Course-join addr a b _ one (acknowledged _ c ns payload rest more e test) =
    acknowledged a c ns payload rest (Course-join addr a b c one more) e test

-- A course is made of steps.
pub Course-Steps : (addr : ℕ) (a b : Link) → Course addr a b → Steps addr a b
Course-Steps addr a _ (begin _) = stay a
Course-Steps addr a _ (silently _ c d more step quiet) = go a c d (Course-Steps addr a c more) step
Course-Steps addr a _ (acknowledged _ c ns payload rest more e test) =
    let d : Link = record c {
      wire = rest;
      receiver = move_to_next_frame_to_receive c.receiver;
      delivered = c.delivered ++ payload ∷ [];
    } in
    go a d _ (go a c d (Course-Steps addr a c more) (deliver c ns payload rest e test)) (answer d)
