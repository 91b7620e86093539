-- ===== src/Server/Connections/Release.antt =====
-- ReleaseConnection called twice, and the two seconds that TravelReleaseList waits.
use konsan_net.Prelude.{
  filter, Bool, not, ltb, ℕ, ◌+◌, ◌<◌, ◌≡◌, refl, sym, ap, ◌∙◌, subst, true, false, none, some,
  List, [], ◌∷◌, ◌++◌, arith, if◌then◌else◌, find, erase, find-erase, UniqueKeys, append_assoc,
  append-nil, Option-cases, Bool-cases, inl, inr, ==_refl, nat_key, ◌*◌, ◌^◌, ◌↔◌,
}
use konsan_net.Server.Connections.{
  Connection, ConnectionsManager, index, add_free_connection_obj, release_connection, release_using,
  push_released, travel, travel_release_list, is_released_long, is_timeout, begin_time,
}

-- Whether a connection was released more than two seconds ago.
unfoldable pub is_due : ℕ → (ℕ → Connection) → ℕ → Bool
is_due now connection a = ltb ((connection a).released_time + 2000) now

-- The loop of TravelReleaseList over `rest`, where `kept` is left: what it makes of `m`.
record Travelled (now : ℕ) (kept rest : List ℕ) (m : ConnectionsManager)
    (r : List ℕ × ConnectionsManager) : Type 0 where
  pub left : r.0 ≡ kept ++ filter (λ a. not (is_due now m.connection a)) rest
  pub freed : r.1.free_connections ≡ m.free_connections ++ filter (is_due now m.connection) rest
  pub connection : r.1.connection ≡ m.connection
  pub in_use : r.1.using_connections ≡ m.using_connections

is_released_long-is_due :
    (now a : ℕ) (m : ConnectionsManager)
    → is_released_long now (m.connection a) ≡ is_due now m.connection a
unfolding is_released_long is_due
is_released_long-is_due now a m = ground arith

filter_yes : (p : ℕ → Bool) (x : ℕ) (xs : List ℕ) → p x ≡ true → filter p (x ∷ xs) ≡ x ∷ filter p xs
unfolding filter
filter_yes p x xs e = rw e refl

filter_no : (p : ℕ → Bool) (x : ℕ) (xs : List ℕ) → p x ≡ false → filter p (x ∷ xs) ≡ filter p xs
unfolding filter
filter_no p x xs e = rw e refl

travel-Travelled :
    (now : ℕ) (kept rest : List ℕ) (m : ConnectionsManager)
    → Travelled now kept rest m (travel now kept rest m)
unfolding travel add_free_connection_obj filter
travel-Travelled now kept [] m = record {
  left = sym (append-nil kept);
  freed = sym (append-nil m.free_connections);
  connection = refl;
  in_use = refl;
}
travel-Travelled now kept (x ∷ rest) m =
    let due = is_due now m.connection in
    let waits : ℕ → Bool = λ a. not (due a) in
    let same = is_released_long-is_due now x m in
    elim (Bool-cases (due x)) [
      | inl e ↦
          let later = travel-Travelled now kept rest (add_free_connection_obj x m) in
          let left = filter_no waits x rest (rw e refl) in
          let freed = filter_yes due x rest e in
          subst
            (λ b. Travelled now kept (x ∷ rest) m (
              travel now (if b then kept else kept ++ x ∷ []) rest
                (if b then add_free_connection_obj x m else m)))
            (sym (same ∙ e))
            (record {
              left = later.left ∙ ap (λ l. kept ++ l) (sym left);
              freed =
                  later.freed
                  ∙ append_assoc m.free_connections (x ∷ []) (filter due rest)
                  ∙ ap (λ l. m.free_connections ++ l) (sym freed);
              connection = later.connection;
              in_use = later.in_use;
            })
      | inr e ↦
          let later = travel-Travelled now (kept ++ x ∷ []) rest m in
          let left = filter_yes waits x rest (rw e refl) in
          let freed = filter_no due x rest e in
          subst
            (λ b. Travelled now kept (x ∷ rest) m (
              travel now (if b then kept else kept ++ x ∷ []) rest
                (if b then add_free_connection_obj x m else m)))
            (sym (same ∙ e))
            (record {
              left =
                  later.left
                  ∙ append_assoc kept (x ∷ []) (filter waits rest)
                  ∙ ap (λ l. kept ++ l) (sym left);
              freed = later.freed ∙ ap (λ l. m.free_connections ++ l) (sym freed);
              connection = later.connection;
              in_use = later.in_use;
            })
    ]

-- TravelReleaseList frees, in their order and behind the free ones, exactly the connections that were
-- released more than two seconds ago, keeps the other released ones in their order, and changes neither the
-- connections nor what is in use.
pub travel_release_list-Waited :
    (now : ℕ) (m : ConnectionsManager)
    → let r = travel_release_list now m in
      (r.released_connections
        ≡ filter (λ a. not (is_due now m.connection a)) m.released_connections)
      × (r.free_connections
          ≡ m.free_connections ++ filter (is_due now m.connection) m.released_connections)
      × (r.connection ≡ m.connection)
      × (r.using_connections ≡ m.using_connections)
unfolding travel_release_list
travel_release_list-Waited now m =
    let all = travel-Travelled now [] m.released_connections m in
    (all.left, all.freed, all.connection, all.in_use)

release_using-none :
    (a : ℕ) (m : ConnectionsManager)
    → find (index a m) m.using_connections ≡ none
    → release_using a m ≡ m
unfolding release_using
release_using-none a m e = rw (e, release_using) refl

release_using-some :
    (a b : ℕ) (m : ConnectionsManager)
    → find (index a m) m.using_connections ≡ some b
    → release_using a m
      ≡ push_released a (record m { using_connections = erase (index a m) m.using_connections })
unfolding release_using
release_using-some a b m e = rw (e, release_using) refl

release_connection-using :
    (a : ℕ) (m : ConnectionsManager)
    → (m.connection a).proxy_connection ≡ false
    → release_connection a m ≡ release_using a m
unfolding release_connection
release_connection-using a m p = rw p refl

release_using-connection :
    (a : ℕ) (m : ConnectionsManager) → (release_using a m).connection ≡ m.connection
unfolding push_released
release_using-connection a m = elim (Option-cases (find (index a m) m.using_connections)) [
  | inl e ↦ ap (λ r. r.connection) (release_using-none a m e)
  | inr (b, e) ↦ ap (λ r. r.connection) (release_using-some a b m e)
]

release_using_twice :
    (a : ℕ) (m : ConnectionsManager)
    → UniqueKeys m.using_connections
    → release_using a (release_using a m) ≡ release_using a m
unfolding push_released index
release_using_twice a m u = elim (Option-cases (find (index a m) m.using_connections)) [
  | inl e ↦ ap (release_using a) (release_using-none a m e)
  | inr (b, e) ↦
      let once = release_using-some a b m e in
      let erased : ConnectionsManager = record m {
        using_connections = erase (index a m) m.using_connections;
      } in
      let gone =
        find-erase (index a m) (index a m) m.using_connections u ∙ rw (==_refl (index a m)) refl in
      ap (release_using a) once ∙ (release_using-none a (push_released a erased) gone ∙ sym once)
]

-- Once more, ReleaseConnection does nothing: no connection is put twice into the released list.
pub release_connection_twice :
    (a : ℕ) (m : ConnectionsManager)
    → (m.connection a).proxy_connection ≡ false
    → UniqueKeys m.using_connections
    → release_connection a (release_connection a m) ≡ release_connection a m
release_connection_twice a m p u =
    let once = release_connection-using a m p in
    let same = ap (λ c. (c a).proxy_connection) (release_using-connection a m) in
    ap (release_connection a) once
    ∙ (release_connection-using a (release_using a m) (same ∙ p)
        ∙ (release_using_twice a m u ∙ sym once))

-- For a time-out below 2 ^ 31, DetectTimeoutConnections finds a connection timed out exactly when twice
-- its time-out has passed since its last packet or, before the first, since it was accepted.
pub is_timeout_iff :
    (now : ℕ) (c : Connection)
    → c.time_out_m_seconds < 2 ^ 31
    → (is_timeout now c ≡ true) ↔ (begin_time c + c.time_out_m_seconds * 2 < now)
unfolding is_timeout
is_timeout_iff now c h = ground arith
