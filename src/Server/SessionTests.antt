-- ===== src/Server/SessionTests.antt =====
-- Sessions, RPC objects and ordered lists at concrete states: the theorems at inputs that meet their hypotheses.
use konsan_net.Prelude.{◌≡◌, refl, true, none, some, [], ◌∷◌, arith, ◌==◌, if◌then◌else◌}
use konsan_net.Server.Session.{new_session}
use konsan_net.Server.Sessions.{SessionsManager, new_sessions_manager}
use konsan_net.Server.Sequence.{SequenceList, push_sequence, ReadBuffers, push_received_buffer}
use konsan_net.Server.Sequence.Ordered.{insert_ordered}
use konsan_net.Server.Sequence.Middle.{Represents}
use konsan_net.Server.Sequence.Push.{push_sequence-Represents}
use konsan_net.Server.Sequence.Receive.{ReadRepresents, push_received_buffer-Represents}

-- Session 0 is in use, session 1 has a guid but is not.
abbrev two_sessions : SessionsManager
two_sessions = record new_sessions_manager {
  using_sessions = ("a", 0) ∷ [];
  session = λ x. record new_session {
    session_guid = if x == 0 then "a" else "b";
    objects = ("o", some 5) ∷ [];
  };
  allocated = 2;
}

-- The nodes 0 and 1 with the numbers 1 and 3; node 2 has the number 2.
abbrev one_and_three : SequenceList
one_and_three = record {
  head = some 0;
  end = some 1;
  next = λ a. if a == 0 then some 1 else none;
  sequence_num = λ a. if a == 0 then 1 else if a == 1 then 3 else a;
}

push_sequence-Represents_example :
    (r : SequenceList) × ((push_sequence 2 2 one_and_three ≡ some (true, r))
      × (Represents r (insert_ordered one_and_three.sequence_num 2 (0 ∷ 1 ∷ []))
          × (r.sequence_num ≡ one_and_three.sequence_num)))
push_sequence-Represents_example =
    push_sequence-Represents 2 2 (0 ∷ 1 ∷ []) one_and_three
      (record {
        chain = (refl, (refl, refl));
        ends = refl;
        ordered = ((omega arith, tt), (tt, tt));
      })
      ((λ e. omega arith), ((λ e. omega arith), tt)) (omega arith)

abbrev two_buffers : ReadBuffers
two_buffers = record {
  buffers = one_and_three;
  last_packet_time = 0;
  number_of_received_buffer_in_list = 2;
  posted_recv_buffers = 5;
}

push_received_buffer-Represents_example :
    (r : ReadBuffers) × ((push_received_buffer 2 77 2 two_buffers ≡ some (true, r))
      × (ReadRepresents r (insert_ordered one_and_three.sequence_num 2 (0 ∷ 1 ∷ []))
          × (r.last_packet_time ≡ 77)))
push_received_buffer-Represents_example =
    push_received_buffer-Represents 2 77 2 (0 ∷ 1 ∷ []) two_buffers
      (record {
        listed = record {
          chain = (refl, (refl, refl));
          ends = refl;
          ordered = ((omega arith, tt), (tt, tt));
        };
        counted = refl;
      })
      ((λ e. omega arith), ((λ e. omega arith), tt)) (omega arith) (omega arith)
