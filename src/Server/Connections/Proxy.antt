-- ===== src/Server/Connections/Proxy.antt =====
-- The connections to other servers: the pool of attached ones by address, and the detached ones that
-- GetFreeProxyClient hands out again.
use konsan_net.Prelude.{
  beq_refl, ℕ, ◌≡◌, refl, ap, ◌∙◌, Bool, true, false, Option, none, some, List, [], ◌∷◌, ◌++◌,
  arith, find, insert, insert_new, find-erase, find-insert, find-insert_new, UniqueKeys, All,
  Option-cases, inl, inr, nat_key, string_key,
}
use Prim.Native.String.{String}
use konsan_net.Server.Connections.{
  ConnectionState, ConnectionsManager, index, release_connection, release_proxy, push_released,
  proxy_address, take_detached, create_client, get_free_proxy_client, close_each,
  attach_proxy_connection, detach_proxy_connection,
}

abbrev pub is_established : ConnectionState → Bool
is_established ConnectionState.established = true
is_established _ = false

abbrev pub Established : ConnectionsManager → ℕ → Type 0
Established m a = is_established (m.connection a).state ≡ true

abbrev pub Closed : ConnectionsManager → ℕ → Type 0
Closed m a = is_established (m.connection a).state ≡ false

-- Closing a connection that is not established changes for no connection whether it is.
abbrev pub ClosesOnly : (ℕ → ConnectionsManager → ConnectionsManager) → Type 0
ClosesOnly on_close =
    (a b : ℕ) (m : ConnectionsManager)
    → Closed m a
    → is_established ((on_close a m).connection b).state ≡ is_established (m.connection b).state

module _ (on_close : ℕ → ConnectionsManager → ConnectionsManager)
    (closes : ClosesOnly on_close) where
  All-Closed_on_close :
      (a : ℕ) (m : ConnectionsManager) (cons : List ℕ)
      → Closed m a
      → All (Closed m) cons
      → All (Closed (on_close a m)) cons
  All-Closed_on_close a m [] c h = tt
  All-Closed_on_close a m (b ∷ cons) c h =
      (closes a b m c ∙ h.0, All-Closed_on_close a m cons c h.1)

  take_detached-next :
      (last : Option ℕ) (a : ℕ) (rest : List ℕ) (m : ConnectionsManager)
      → Closed m a
      → take_detached on_close last (a ∷ rest) m
        ≡ take_detached on_close (some a) rest (on_close a m)
  unfolding take_detached
  take_detached-next last a rest m c = ground arith

  take_detached-Established :
      (last : Option ℕ) (before : List ℕ) (a : ℕ) (after : List ℕ) (m : ConnectionsManager)
      → All (Closed m) before
      → Established m a
      → take_detached on_close last (before ++ a ∷ after) m
        ≡ (some a, after, close_each on_close before m)
  unfolding take_detached close_each
  take_detached-Established last [] a after m h e = ground arith
  take_detached-Established last (b ∷ before) a after m h e =
      take_detached-next last b (before ++ a ∷ after) m h.0
      ∙ take_detached-Established (some b) before a after (on_close b m)
          (All-Closed_on_close b m before h.0 h.1) (closes b a m h.0 ∙ e)

  take_detached-Closed :
      (last : Option ℕ) (before : List ℕ) (b : ℕ) (m : ConnectionsManager)
      → All (Closed m) (before ++ b ∷ [])
      → take_detached on_close last (before ++ b ∷ []) m
        ≡ (some b, [], close_each on_close (before ++ b ∷ []) m)
  unfolding take_detached close_each
  take_detached-Closed last [] b m h = take_detached-next last b [] m h.0
  take_detached-Closed last (a ∷ before) b m h =
      take_detached-next last a (before ++ b ∷ []) m h.0
      ∙ take_detached-Closed (some a) before b (on_close a m)
          (All-Closed_on_close a m (before ++ b ∷ []) h.0 h.1)

  -- GetFreeProxyClient closes the connections of the address that are not established, up to the first
  -- that is, and hands that one out.
  pub get_free_proxy_client-Established :
      (succeeds : Bool) (address : String) (before : List ℕ) (a : ℕ) (after : List ℕ)
      (m : ConnectionsManager)
      → find address m.detached_proxy_connections_pool ≡ some (before ++ a ∷ after)
      → All (Closed m) before
      → Established m a
      → let n = close_each on_close before m in
        get_free_proxy_client succeeds on_close address m ≡ (
          some a,
          record n {
            detached_proxy_connections_pool =
                insert address after n.detached_proxy_connections_pool;
          },
        )
  unfolding create_client get_free_proxy_client close_each
  get_free_proxy_client-Established succeeds address before a after m f h e =
      rw (f, get_free_proxy_client) (rw (take_detached-Established none before a after m h e) refl)

  -- The bug: where no connection of the address is established, GetFreeProxyClient closes them all and
  -- hands out the last one that it closed, not a new one.
  pub get_free_proxy_client-Closed :
      (succeeds : Bool) (address : String) (before : List ℕ) (b : ℕ) (m : ConnectionsManager)
      → find address m.detached_proxy_connections_pool ≡ some (before ++ b ∷ [])
      → All (Closed m) (before ++ b ∷ [])
      → let n = close_each on_close (before ++ b ∷ []) m in
        get_free_proxy_client succeeds on_close address m ≡ (
          some b,
          record n {
            detached_proxy_connections_pool = insert address [] n.detached_proxy_connections_pool;
          },
        )
  unfolding create_client get_free_proxy_client close_each
  get_free_proxy_client-Closed succeeds address before b m f h =
      rw (f, get_free_proxy_client) (rw (take_detached-Closed none before b m h) refl)

release_connection-proxy :
    (a : ℕ) (m : ConnectionsManager)
    → (m.connection a).proxy_connection ≡ true
    → release_connection a m ≡ release_proxy a m
unfolding release_connection
release_connection-proxy a m p = rw p refl

release_proxy-some :
    (a b : ℕ) (cons : List (ℕ × ℕ)) (m : ConnectionsManager)
    → find (proxy_address (m.connection a)) m.attach_proxy_connections_pool ≡ some cons
    → find (index a m) cons ≡ some b
    → (release_proxy a m).released_connections ≡ m.released_connections ++ a ∷ []
unfolding push_released release_proxy
release_proxy-some a b cons m f g = rw (f, release_proxy) (rw g refl)

release_proxy-none :
    (a : ℕ) (m : ConnectionsManager)
    → find (proxy_address (m.connection a)) m.attach_proxy_connections_pool ≡ none
    → release_proxy a m ≡ m
unfolding release_proxy
release_proxy-none a m f = rw (f, release_proxy) refl

find-attached : (i a : ℕ) (cons : List (ℕ × ℕ)) → (b : ℕ) × (find i (insert_new i a cons) ≡ some b)
find-attached i a cons = elim (Option-cases (find i cons)) [
  | inl e ↦ (a, find-insert_new i a cons ∙ rw e refl)
  | inr (b, e) ↦ (b, find-insert_new i a cons ∙ rw e refl)
]

-- A proxy connection that was attached is put into the released list when it is released.
pub attach_proxy_connection-release :
    (a : ℕ) (m : ConnectionsManager)
    → (m.connection a).proxy_connection ≡ true
    → (release_connection a (attach_proxy_connection a m)).released_connections
      ≡ m.released_connections ++ a ∷ []
unfolding attach_proxy_connection index
attach_proxy_connection-release a m p =
    let r = attach_proxy_connection a m in
    let address = proxy_address (m.connection a) in
    let cons : List (ℕ × ℕ) = elim (find address m.attach_proxy_connections_pool) [
      | none ↦ []
      | some cs ↦ cs
    ] in
    let attached = insert_new (index a m) a cons in
    let (b, there) = find-attached (index a m) a cons in
    ap (λ x. x.released_connections) (release_connection-proxy a r p)
    ∙ release_proxy-some a b attached r
        (find-insert address address attached m.attach_proxy_connections_pool
          ∙ rw (beq_refl address) refl)
        there

detach-none :
    (a : ℕ) (m : ConnectionsManager)
    → find (proxy_address (m.connection a)) m.attach_proxy_connections_pool ≡ none
    → detach_proxy_connection a m ≡ m
unfolding detach_proxy_connection
detach-none a m f = rw (f, detach_proxy_connection) refl

detach-attached :
    (a : ℕ) (m : ConnectionsManager)
    → UniqueKeys m.attach_proxy_connections_pool
    → let r = detach_proxy_connection a m in
      (r.connection ≡ m.connection)
      × (find (proxy_address (m.connection a)) r.attach_proxy_connections_pool ≡ none)
unfolding detach_proxy_connection
detach-attached a m u =
    let address = proxy_address (m.connection a) in
    elim (Option-cases (find address m.attach_proxy_connections_pool)) [
      | inl e ↦ rw (e, detach_proxy_connection) (refl, e)
      | inr (cons, e) ↦
          rw (e, detach_proxy_connection)
            (
              refl,
              find-erase address address m.attach_proxy_connections_pool u
                  ∙ rw (beq_refl address) refl,
            )
    ]

-- The bug: DetachProxyConnection forgets all attached connections of its address, so that none of
-- them is put into the released list when it is released.
pub detach_proxy_connection_strands :
    (a b : ℕ) (m : ConnectionsManager)
    → (m.connection b).proxy_connection ≡ true
    → proxy_address (m.connection b) ≡ proxy_address (m.connection a)
    → UniqueKeys m.attach_proxy_connections_pool
    → release_connection b (detach_proxy_connection a m) ≡ detach_proxy_connection a m
detach_proxy_connection_strands a b m p same u =
    let r = detach_proxy_connection a m in
    let (kept, gone) = detach-attached a m u in
    let address = ap (λ c. proxy_address (c b)) kept ∙ same in
    release_connection-proxy b r (ap (λ c. (c b).proxy_connection) kept ∙ p)
    ∙ release_proxy-none b r (ap (λ s. find s r.attach_proxy_connections_pool) address ∙ gone)
