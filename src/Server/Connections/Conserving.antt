-- ===== src/Server/Connections/Conserving.antt =====
-- CXConnectionsManager.cpp: each call conserves the connection objects.
use konsan_net.Prelude.{
  Option-cases, inl, inr, ℕ, zero, suc, ◌+◌, ◌≡◌, refl, ap, ◌∙◌, Bool, true, false, Option, none,
  some, List, [], ◌∷◌, ◌++◌, arith, ◌==◌, if◌then◌else◌, find, erase, values, count, is_one,
  count-append, count-insert, count-erase, nat_key, length,
}
use konsan_net.Server.Connections.{
  ConnectionsManager, index, create_connections, take_first, take_free, set_state, refill,
  get_free_connection_obj, add_free_connection_obj, add_using_connection, release_connection,
  release_using, push_released, travel, travel_release_list, is_released_long,
}
use konsan_net.Server.Connections.Calls.{Conserved}

create_connections-Conserved :
    (k : ℕ) (held : List ℕ) (m : ConnectionsManager)
    → Conserved held m
    → Conserved held (create_connections k m)
unfolding create_connections
create_connections-Conserved zero held m h = h
create_connections-Conserved (suc k) held m h =
    create_connections-Conserved k held _
      (λ b. ground (arith, h b, count-append b m.free_connections (m.allocated ∷ [])))

-- What a client has got holds: nothing, or an object more.
abbrev pub Granted : List ℕ → Option (ℕ × ConnectionsManager) → Type 0
Granted held none = Unit
Granted held (some (a, n)) = Conserved (a ∷ held) n

take_first-Granted :
    (held fs : List ℕ) (m : ConnectionsManager)
    → m.free_connections ≡ fs
    → Conserved held m
    → Granted held (take_first fs m)
unfolding take_first set_state
take_first-Granted held [] m e h = tt
take_first-Granted held (f ∷ rest) m e h =
    λ b. let same = h b in let free = ap (count b) e in omega arith

-- What fills the queue conserves the objects.
abbrev Filled : List ℕ → Option ConnectionsManager → Type 0
Filled held none = Unit
Filled held (some n) = Conserved held n

refill-Filled :
    (held : List ℕ) (succeeds : Bool) (m : ConnectionsManager)
    → Conserved held m
    → Filled held (refill succeeds m)
unfolding refill
refill-Filled held false m h = tt
refill-Filled held true m h = create_connections-Conserved 1000 held m h

take-Filled-Granted :
    (held : List ℕ) (filled : Option ConnectionsManager)
    → Filled held filled
    → Granted held (elim filled [ none ↦ none | some n ↦ take_free n ])
unfolding take_free
take-Filled-Granted held none h = tt
take-Filled-Granted held (some n) h = take_first-Granted held n.free_connections n refl h

pub get_free-Granted :
    (held : List ℕ) (succeeds : Bool) (m : ConnectionsManager)
    → Conserved held m
    → Granted held (get_free_connection_obj succeeds m)
unfolding get_free_connection_obj
get_free-Granted held succeeds m h =
    take-Filled-Granted held (if length m.free_connections == 0 then refill succeeds m else some m)
      (elim (length m.free_connections == 0)
        as (λ b. Filled held (if b then refill succeeds m else some m)) [
          | true ↦ refill-Filled held succeeds m h
          | false ↦ h
        ])

count-middle :
    (b : ℕ) (xs : List ℕ) (a : ℕ) (ys : List ℕ)
    → count b (xs ++ a ∷ ys) ≡ is_one b a + count b (xs ++ ys)
count-middle b [] a ys = refl
count-middle b (x ∷ xs) a ys = let h = count-middle b xs a ys in omega arith

pub add_free-Conserved :
    (before after : List ℕ) (m : ConnectionsManager) (a : ℕ)
    → Conserved (before ++ a ∷ after) m
    → Conserved (before ++ after) (add_free_connection_obj a m)
unfolding add_free_connection_obj
add_free-Conserved before after m a h b =
    let held = count-middle b before a after in
    let free = count-append b m.free_connections (a ∷ []) in let same = h b in omega arith

pub add_using-Conserved :
    (before after : List ℕ) (m : ConnectionsManager) (a : ℕ)
    → (m.connection a).proxy_connection ≡ false
    → find (index a m) m.using_connections ≡ none
    → Conserved (before ++ a ∷ after) m
    → Conserved (before ++ after) (add_using_connection a m)
unfolding add_using_connection
add_using-Conserved before after m a p f h =
    rw (p, f)
      (λ b.
        let held = count-middle b before a after in
        let using = count-insert b (index a m) a m.using_connections f in
        let same = h b in omega arith)

push-Conserved :
    (held : List ℕ) (m : ConnectionsManager) (a : ℕ)
    → find (index a m) m.using_connections ≡ some a
    → Conserved held m
    → Conserved held (record m {
      using_connections = erase (index a m) m.using_connections;
      released_connections = m.released_connections ++ a ∷ [];
    })
push-Conserved held m a f h b =
    let released = count-append b m.released_connections (a ∷ []) in
    let using = count-erase b (index a m) a m.using_connections f in let same = h b in omega arith

pub release_using-Conserved :
    (held : List ℕ) (m : ConnectionsManager) (a : ℕ)
    → ((b : ℕ) → find (index a m) m.using_connections ≡ some b → b ≡ a)
    → Conserved held m
    → Conserved held (release_using a m)
unfolding release_using push_released
release_using-Conserved held m a own h =
    elim (Option-cases (find (index a m) m.using_connections)) [
      | inl e ↦ rw (e, release_using) h
      | inr (b, e) ↦ rw (e, release_using) (push-Conserved held m a (e ∙ ap some (own b e)) h)
    ]

pub release_connection-using :
    (m : ConnectionsManager) (a : ℕ)
    → (m.connection a).proxy_connection ≡ false
    → release_using a m ≡ release_connection a m
unfolding release_connection
release_connection-using m a p = rw p refl

-- What the loop of TravelReleaseList makes of `m`: the count of `a` in what is left and in what is free.
abbrev Balanced : ℕ → ℕ → ConnectionsManager → List ℕ × ConnectionsManager → Type 0
Balanced a total m r =
    (count a r.0 + count a r.1.free_connections ≡ total)
    × ((r.1.using_connections ≡ m.using_connections) × (r.1.allocated ≡ m.allocated))

travel-Balanced :
    (now a : ℕ) (kept rest : List ℕ) (m : ConnectionsManager)
    → Balanced a
        (count a kept + (count a rest + count a m.free_connections))
        m
        (travel now kept rest m)
unfolding travel add_free_connection_obj
travel-Balanced now a kept [] m = (omega arith, (refl, refl))
travel-Balanced now a kept (x ∷ rest) m =
    let total = count a kept + (count a (x ∷ rest) + count a m.free_connections) in
    elim (is_released_long now (m.connection x))
      as (λ b. Balanced a total m (
        travel now (if b then kept else kept ++ x ∷ []) rest
          (if b then add_free_connection_obj x m else m))) [
            | true ↦
                let h = travel-Balanced now a kept rest (add_free_connection_obj x m) in
                let free = count-append a m.free_connections (x ∷ []) in (omega arith, h.1)
            | false ↦
                let h = travel-Balanced now a (kept ++ x ∷ []) rest m in
                let left = count-append a kept (x ∷ []) in (omega arith, h.1)
          ]

pub travel_release_list-Conserved :
    (held : List ℕ) (m : ConnectionsManager) (now : ℕ)
    → Conserved held m
    → Conserved held (travel_release_list now m)
unfolding travel_release_list
travel_release_list-Conserved held m now h b =
    let t = travel-Balanced now b [] m.released_connections m in
    let using = ap (λ u. count b (values u)) t.1.0 in let same = h b in rw t.1.1 (omega arith)
