-- ===== src/Container/QueueData/Invariant.antt =====
-- The invariant of CXQueueData: the list `us` of nodes in use, and the list `es` of empty nodes.
use konsan_net.Prelude.{
  ℕ, ◌+◌, ◌*◌, ◌<◌, ◌≤◌, ◌^◌, ◌≡◌, ◌∙◌, true, Option, List, [], ◌∷◌, ◌++◌, map, All, Distinct,
  get_last?, length,
}
use konsan_net.Chain.{Chain}
use konsan_net.Container.QueueData.{QueueData}

-- A tail pointer of a list is the last node; that of an empty list is not read.
abbrev pub EndsAt : List ℕ → Option ℕ → Type 0
EndsAt [] e = Unit
EndsAt (x ∷ xs) e = e ≡ get_last? (x ∷ xs)

pub record Holds (q : QueueData) (us es : List ℕ) : Type 0 where
  pub using_chain : Chain q.next q.list_head us
  pub using_end : q.list_end ≡ get_last? us
  pub empty_chain : Chain q.next q.empty_list_head es
  pub empty_end : EndsAt es q.empty_list_end
  pub apart : Distinct (us ++ es)
  pub inside : All (λ x. x < q.allocated) (us ++ es)
  pub using_count : q.number_of_using_nodes ≡ length us
  pub empty_count : q.number_of_empty_nodes ≡ length es
  pub room : 2 ≤ q.init_size
  pub small : 24 * q.init_size + 16 < 2 ^ 31
  pub bounded : length us + length es < 2 ^ 31

-- The queue holds the data `xs`, first first, with `k` empty nodes to spare.
abbrev pub Represents : QueueData → List ℕ → ℕ → Type 0
Represents q xs k =
    (us : List ℕ) × (es : List ℕ) × Holds q us es
    × (q.inited ≡ true)
    × (map q.value us ≡ xs)
    × (length es ≡ k)

pub Represents-cast :
    (q : QueueData) (xs ys : List ℕ) (k j : ℕ)
    → xs ≡ ys
    → k ≡ j
    → Represents q xs k
    → Represents q ys j
Represents-cast q xs ys k j e f (us, es, h, i, m, n) = (us, es, h, i, m ∙ e, n ∙ f)
