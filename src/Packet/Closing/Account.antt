-- ===== src/Packet/Closing/Account.antt =====
-- CXCommunicationServer.cpp, CloseConnection: its calls agree with the state that it leaves.
use konsan_net.Prelude.{
  ◌⊎◌, ℕ, ◌+◌, ◌-◌, ◌≤◌, ◌≡◌, refl, sym, ap, subst, not, ◌&&◌, Option, none, some, ◌==◌, Bool-cases,
  if◌then◌else◌, inl, inr, arith,
}
use konsan_net.Packet.Closing.{
  State, ClosedType, Link, is_closed, is_ending, is_attached, is_closing, close_socket,
  free_read_list, close, is_drained, leave_session, release, detach, close_connection,
}

-- How often each call was made that belongs to a state.
pub record Calls (closed_sockets released_links detached_links sockets releases : ℕ) : Type 0 where
  pub closes : closed_sockets ≡ sockets
  pub released : released_links ≡ releases
  pub detaches : detached_links ≤ sockets

abbrev pub Ran : Link → ℕ → ℕ → Type 0
Ran l sockets releases = Calls l.sockets_closed l.released l.detached sockets releases

unfoldable pub Lived : State → Link → Type 0
Lived State.initialized l = Ran l 0 0
Lived State.creating l = Ran l 0 0
Lived State.pending l = Ran l 0 0
Lived State.established l = Ran l 0 0
Lived State.closing l = Ran l 1 0
Lived State.closed l = Ran l 1 1 ⊎ (Ran l 1 0 × (l.detached ≡ 0))

-- The calls of the socket, of the session and of the manager agree with the state.
unfoldable pub Accounted : Link → Type 0
Accounted l = Lived l.state l

-- In the state `st`, with that many calls.
pub record In (st : State) (l : Link) (a b : ℕ) : Type 0 where
  pub state : l.state ≡ st
  pub ran : Ran l a b

pub free_read_list-In :
    (st : State) (l : Link) (a b : ℕ) → In st l a b → In st (free_read_list l) a b
unfolding free_read_list
free_read_list-In st l a b i =
    elim (Bool-cases (l.posted_sent_buffers == 0 && not (l.read_buffers == 0))) [
      | inl y ↦ rw y (record { state = i.state; ran = i.ran })
      | inr n ↦ rw n i
    ]

leave_session-In :
    (o : Option ℕ) (st : State) (l : Link) (a b : ℕ) → In st l a b → In st (leave_session o l) a b
unfolding leave_session
leave_session-In none st l a b i = i
leave_session-In (some n) st l a b i = elim (Bool-cases (n - 1 == 0)) [
  | inl y ↦ rw y (record { state = i.state; ran = i.ran })
  | inr k ↦ rw k (record { state = i.state; ran = i.ran })
]

release-In : (l : Link) → In State.closing l 1 0 → In State.closed (release l) 1 1
unfolding release
release-In l i =
    let gone =
      leave_session-In l.session State.closed (record l { state = State.closed }) 1 0
        (record { state = refl; ran = i.ran }) in
    record {
      state = gone.state;
      ran = record {
        closes = gone.ran.closes;
        released = ap (λ n. n + 1) i.ran.released;
        detaches = gone.ran.detaches;
      };
    }

In-Accounted :
    (l : Link) (st : State) (a b : ℕ)
    → ((m : Link) → Ran m a b → Lived st m)
    → In st l a b
    → Accounted l
unfolding Accounted
In-Accounted l st a b lives i = subst (λ s. Lived s l) (sym i.state) (lives l i.ran)

-- The end of CloseConnection.
ended-Accounted :
    (l : Link) → In State.closing l 1 0 → Accounted (if is_drained l then release l else l)
unfolding Lived
ended-Accounted l i = elim (Bool-cases (is_drained l)) [
  | inl y ↦ rw y (In-Accounted (release l) State.closed 1 1 (λ m r. inl r) (release-In l i))
  | inr n ↦ rw n (In-Accounted l State.closing 1 0 (λ m r. r) i)
]

first_close :
    (l : Link) (t : ClosedType) (d : ℕ)
    → d ≤ 1
    → l.sockets_closed ≡ 0
    → l.released ≡ 0
    → Accounted (
        let m = free_read_list (record l {
          state = State.closing;
          detached = d;
          sockets_closed = l.sockets_closed + 1;
        }) in
        if is_drained m then release m else m)
first_close l t d few closes released =
    let m = record l {
      state = State.closing;
      detached = d;
      sockets_closed = l.sockets_closed + 1;
    } in
    ended-Accounted (free_read_list m) (
      free_read_list-In State.closing m 1 0 (record {
        state = refl;
        ran = record { closes = ap (λ n. n + 1) closes; released = released; detaches = few };
      }))

pub close_connection-state :
    (st : State) (l : Link) (t : ClosedType)
    → Lived st (record l { state = st })
    → Accounted (close_connection t (record l { state = st }))
unfolding Lived close_connection close close_socket detach is_closed is_ending is_closing
    is_attached Accounted
close_connection-state State.closed l t r = r
close_connection-state State.closing l t r =
    ended-Accounted (free_read_list (record l { state = State.closing })) (
      free_read_list-In State.closing (record l { state = State.closing }) 1 0
        (record { state = refl; ran = r }))
close_connection-state State.initialized l t r =
    first_close l t l.detached (let d = r.detaches in omega arith) r.closes r.released
close_connection-state State.creating l t r =
    first_close l t l.detached (let d = r.detaches in omega arith) r.closes r.released
close_connection-state State.pending l t r =
    first_close l t (l.detached + 1) (let d = r.detaches in omega arith) r.closes r.released
close_connection-state State.established l t r =
    first_close l t (l.detached + 1) (let d = r.detaches in omega arith) r.closes r.released
