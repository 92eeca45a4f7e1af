-- ===== src/Enrichment/Queue.antt =====
-- core/internal/enrichment/queue.go: `InMemoryQueue`.
use abcmovies.Base.{
  ℕ, List, [], ◌∷◌, ◌++◌, Text, ◌==◌, if◌then◌else◌, Option, none, some, contains, length,
}

-- `seen` is the set of the ids that wait, as the list of its members.
pub record Queue : Type 0 where
  pub pending : List Text
  pub seen : List Text

unfoldable pub new_queue : Queue
new_queue = record { pending = []; seen = [] }

unfoldable pub enqueue : Queue → Text → Queue
enqueue q entry_id =
    if contains q.seen entry_id
    then q
    else record { pending = q.pending ++ (entry_id ∷ []); seen = entry_id ∷ q.seen }

-- `delete(q.seen, id)`
unfoldable pub forget : Text → List Text → List Text
forget id [] = []
forget id (s ∷ l) = let rest = forget id l in if s == id then rest else s ∷ rest

unfoldable pub try_next : Queue → Queue × Option Text
try_next q = elim q.pending [
  | [] ↦ (q, none)
  | id ∷ rest ↦ (record { pending = rest; seen = forget id q.seen }, some id)
]

abbrev pub backlog : Queue → ℕ
backlog q = length q.pending

-- What producers and the worker do.
pub data Use : Type 0 where
  enqueues : Text → Use
  takes : Use

unfoldable pub use_queue : Queue → List Use → Queue
use_queue q [] = q
use_queue q (enqueues id ∷ uses) = use_queue (enqueue q id) uses
use_queue q (takes ∷ uses) = use_queue (try_next q).0 uses
