-- ===== src/Api/Bus.antt =====
-- core/internal/apiserver/bus.go: the in-memory event bus. A subscriber's channel is the list of the events
-- that wait in it; who reads one whose subscriber was replaced or removed is left out.
use abcmovies.Base.{
  ℕ, Bool, ◌||◌, List, [], ◌∷◌, ◌++◌, Text, ◌==◌, eqb, ltb, blank, length, if◌then◌else◌, Option,
  none, some, text_key, insert, delete, map_values,
}
use abcmovies.Schema.Events.{EventEnvelope, audience_user, audience_owner, audience_account}

pub record BusSubscriber : Type 0 where
  pub uid : Text
  pub ch : List EventEnvelope

-- The predicate is nil, `none`, until it is set.
pub record InMemoryBus : Type 0 where
  pub subscribers : List (Text × BusSubscriber)
  pub account_entiter : Option (Text → Text → Bool)

unfoldable pub new_bus : InMemoryBus
new_bus = record { subscribers = []; account_entiter = none }

unfoldable pub set_account_entiter : InMemoryBus → (Text → Text → Bool) → InMemoryBus
set_account_entiter b fn = record b { account_entiter = some fn }

-- The buffer of a channel.
abbrev pub buffer_size : ℕ
buffer_size = 64

-- The `select` with a default.
unfoldable pub send : EventEnvelope → BusSubscriber → BusSubscriber
send event sub =
    if ltb (length sub.ch) buffer_size then record sub { ch = sub.ch ++ (event ∷ []) } else sub

-- The loops of `Publish`, over the subscribers of one user and over those of an account.
abbrev pub to_user : Text → EventEnvelope → Text → BusSubscriber → BusSubscriber
to_user uid event id sub = if sub.uid == uid then send event sub else sub

abbrev pub to_account :
    (Text → Text → Bool) → Text → EventEnvelope → Text → BusSubscriber → BusSubscriber
to_account entiter account_id event id sub =
    if entiter account_id sub.uid then send event sub else sub

unfoldable pub publish : InMemoryBus → Option EventEnvelope → InMemoryBus
publish b none = b
publish b (some event) =
    if eqb event.audience audience_user || eqb event.audience audience_owner
    then if blank event.user_id
      then b
      else record b { subscribers = map_values (to_user event.user_id event) b.subscribers }
    else if eqb event.audience audience_account
    then if blank event.account_id then b else elim b.account_entiter [
      | none ↦ b
      | some fn ↦ record b {
        subscribers = map_values (to_account fn event.account_id event) b.subscribers;
      }
    ]
    else b

unfoldable pub subscribe : InMemoryBus → Text → Text → InMemoryBus
subscribe b id uid = record b {
  subscribers = insert id (record { uid = uid; ch = [] }) b.subscribers;
}

unfoldable pub unsubscribe : InMemoryBus → Text → InMemoryBus
unsubscribe b id = record b { subscribers = delete id b.subscribers }

unfoldable pub close_bus : InMemoryBus → InMemoryBus
close_bus b = record b { subscribers = [] }

-- A reader takes the first event that waits.
abbrev pub taken : BusSubscriber → BusSubscriber
taken sub = elim sub.ch [ [] ↦ sub | event ∷ rest ↦ record sub { ch = rest } ]

abbrev pub takes_from : Text → Text → BusSubscriber → BusSubscriber
takes_from id j sub = if j == id then taken sub else sub

unfoldable pub receive : InMemoryBus → Text → InMemoryBus
receive b id = record b { subscribers = map_values (takes_from id) b.subscribers }
