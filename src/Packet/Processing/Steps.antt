-- ===== src/Packet/Processing/Steps.antt =====
-- CXConnectionObject.cpp, ProcessUnpackedMessage: what a call of an object leaves as it is.
use konsan_net.Prelude.{
  ℕ, ◌≡◌, refl, ◌∙◌, Bool, List, Option, none, some, if◌then◌else◌, Bool-cases, Option-cases, inl,
  inr, string_key, find,
}
use Prim.Native.String.{String}
use konsan_net.Server.Session.{ConnectionSession, find_object}
use konsan_net.Server.Objects.{get_free_object}
use konsan_net.Packet.Processing.{
  Message, Classes, Processor, pop_rpc_obj, align_object, find_in_session, enter_object, get_object,
  look_up, call_object, serve,
}

-- Where a connection stands in its messages: the last number, those that were taken off the list and those freed.
abbrev pub position : Processor → ℕ × List ℕ × List ℕ
position p = (p.last_processed_message_sequence_num, p.taken_off, p.freed)

abbrev pub Same : Processor → Processor → Type 0
Same p q = position q ≡ position p

pop_rpc_obj-Same : (g : String) (p : Processor) → Same p (pop_rpc_obj g p).1
unfolding pop_rpc_obj
pop_rpc_obj-Same g p = elim (Option-cases (find g p.rpc_obj)) [
  | inl n ↦ rw (n, pop_rpc_obj) refl
  | inr (o, s) ↦ rw (s, pop_rpc_obj) refl
]

-- The object that the session has, or that a proxy's request waits for.
in_session : Message → ConnectionSession → Processor → Option ℕ × Processor
in_session m s p =
    let (o, popped) = pop_rpc_obj m.request_id p in
    elim (find_object m.object_guid s) [
      | some a ↦ (some a, p)
      | none ↦
          if p.is_proxy_connection
          then elim o [ none ↦ (none, popped) | some a ↦ (some a, align_object m a s popped) ]
          else (none, p)
    ]

in_session-Same :
    (m : Message) (s : ConnectionSession) (p : Processor) → Same p (in_session m s p).1
unfolding in_session align_object pop_rpc_obj
in_session-Same m s p =
    let k = pop_rpc_obj-Same m.request_id p in
    elim (Option-cases (find_object m.object_guid s)) [
      | inr (a, e) ↦ rw (e, in_session) refl
      | inl e ↦ elim (Bool-cases p.is_proxy_connection) [
        | inr n ↦ rw (e, n, in_session) refl
        | inl y ↦ elim (Option-cases (pop_rpc_obj m.request_id p).0) [
          | inl o ↦ rw (e, y, o, in_session) k
          | inr (a, o) ↦ rw (e, y, o, in_session) k
        ]
      ]
    ]

find_in_session-Same : (m : Message) (p : Processor) → Same p (find_in_session m p).1
unfolding find_in_session in_session
find_in_session-Same m p =
    elim p.session
      as (λ o.
        Same p
          (elim o as (λ x. Option ℕ × Processor) [
            | none ↦ (none, p)
            | some s ↦ in_session m s p
          ]).1) [ none ↦ refl | some s ↦ in_session-Same m s p ]

enter_object-Same : (m : Message) (a : ℕ) (p : Processor) → Same p (enter_object m a p).1
unfolding enter_object
enter_object-Same m a p = elim (Bool-cases (p.manager.object a).is_unique_instance) [
  | inl y ↦ simp y refl
  | inr n ↦ elim (Option-cases p.session) [
    | inl e ↦ simp (n, e) refl
    | inr (s, e) ↦ simp (n, e) refl
  ]
]

get_object-Same : (c : Classes) (m : Message) (p : Processor) → Same p (get_object c m p).1.1
unfolding get_object
get_object-Same c m p =
    let first = get_free_object (c.new_guid m) (c.created m) m.object_guid p.manager in
    elim (Option-cases first.0) [
      | inl e ↦ rw (e, get_object) refl
      | inr (a, e) ↦ rw (e, get_object) (enter_object-Same m a (record p { manager = first.1 }))
    ]

look_up-Same : (c : Classes) (m : Message) (p : Processor) → Same p (look_up c m p).1.1
unfolding look_up
look_up-Same c m p =
    let k = find_in_session-Same m p in
    elim (Option-cases (find_in_session m p).0) [
      | inr (a, e) ↦ rw (e, look_up) k
      | inl e ↦ rw (e, look_up) (get_object-Same c m (find_in_session m p).1 ∙ k)
    ]

pub serve-Same :
    (c : Classes) (m : Message) (code : ℕ) (need_close : Bool) (p : Processor)
    → Same p (serve c m code need_close p).processor
unfolding serve call_object
serve-Same c m code need_close p =
    let k = look_up-Same c m p in
    elim (Bool-cases (string_key.beq m.object_guid "")) [
      | inl e ↦ rw (e, serve) refl
      | inr n ↦ elim (Option-cases (look_up c m p).0) [
        | inl e ↦ rw (n, e, serve) k
        | inr (a, e) ↦ rw (n, e, serve) k
      ]
    ]
