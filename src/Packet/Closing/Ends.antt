-- ===== src/Packet/Closing/Ends.antt =====
-- CXCommunicationServer.cpp, CloseConnection: the last call of it closes the connection.
use konsan_net.Prelude.{
  ◌∙◌, ℕ, ◌+◌, ◌-◌, ◌≡◌, refl, ap, true, false, not, ◌&&◌, Option, none, some, ◌==◌, Bool-cases,
  inl, inr, arith,
}
use konsan_net.Packet.Closing.{
  State, ClosedType, Link, is_closed, is_ending, is_attached, close_socket, free_read_list, close,
  is_drained, leave_session, release, detach, close_connection,
}

-- Nothing is outstanding but the read list.
record Counts (posted_sent posted_received in_queue in_list read : ℕ) : Type 0 where
  sent : posted_sent ≡ 0
  received : posted_received ≡ 0
  queued : in_queue ≡ 0
  listed : in_list ≡ read

abbrev Idle : Link → Type 0
Idle l =
    Counts l.posted_sent_buffers l.posted_recv_buffers l.number_of_received_packet_in_queue
      l.number_of_received_buffer_in_list l.read_buffers

detach-Idle : (l : Link) → Idle l → Idle (detach l)
unfolding detach
detach-Idle l i = elim (Bool-cases (is_attached l.state)) [ inl y ↦ rw y i | inr n ↦ rw n i ]

close_socket-Idle : (l : Link) → Idle l → Idle (close_socket l)
unfolding close_socket
close_socket-Idle l i = elim (Bool-cases (is_ending l.state)) [ inl y ↦ rw y i | inr n ↦ rw n i ]

free_read_list-drained : (l : Link) → Idle l → is_drained (free_read_list l) ≡ true
unfolding free_read_list is_drained
free_read_list-drained l i = ground arith

free_read_list-released : (l : Link) → (free_read_list l).released ≡ l.released
unfolding free_read_list
free_read_list-released l =
    elim (Bool-cases (l.posted_sent_buffers == 0 && not (l.read_buffers == 0))) [
      | inl y ↦ rw y refl
      | inr n ↦ rw n refl
    ]

shut-released : (l : Link) → (close_socket (detach l)).released ≡ l.released
unfolding close_socket detach
shut-released l = ground arith

leave_session-state : (o : Option ℕ) (l : Link) → (leave_session o l).state ≡ l.state
unfolding leave_session
leave_session-state none l = refl
leave_session-state (some n) l = elim (Bool-cases (n - 1 == 0)) [
  | inl y ↦ rw y refl
  | inr k ↦ rw k refl
]

-- CloseConnection of a connection without outstanding work closes it, whatever is left in its read list:
-- it is released in this call.
pub close_connection_closes :
    (l : Link) (t : ClosedType)
    → is_closed l.state ≡ false
    → l.posted_sent_buffers ≡ 0
    → l.posted_recv_buffers ≡ 0
    → l.number_of_received_packet_in_queue ≡ 0
    → l.number_of_received_buffer_in_list ≡ l.read_buffers
    → ((close_connection t l).state ≡ State.closed)
      × ((close_connection t l).released ≡ l.released + 1)
unfolding close_connection close release
close_connection_closes l t alive sent received queued listed =
    let idle : Idle l = record {
      sent = sent;
      received = received;
      queued = queued;
      listed = listed;
    } in
    let shut = close_socket (detach l) in
    let end = free_read_list shut in
    let drained = free_read_list-drained shut (close_socket-Idle (detach l) (detach-Idle l idle)) in
    let same = free_read_list-released shut ∙ shut-released l in
    let run : close_connection t l ≡ release end = rw (alive, drained) refl in
    rw run
      (leave_session-state end.session (record end { state = State.closed }), ap (λ n. n + 1) same)
