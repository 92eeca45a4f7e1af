-- ===== src/Api/Routing.antt =====
-- core/internal/apiserver/bus.go: who an event reaches.
use abcmovies.Base.{
  ◌+◌, ◌≤◌, subst, ◌≡◌, refl, ◌∙◌, Bool, true, false, not, ◌&&◌, ◌||◌, List, [], ◌∷◌, ◌++◌, Text,
  Text-discrete, ◌==◌, eqb, ltb, blank, length, if◌then◌else◌, Option, none, some, text_key, lookup,
  lookup-insert, lookup-delete, lookup-map_values, All, Option-cases, Bool-cases, inl, inr, arith,
}
use abcmovies.Schema.Events.{EventEnvelope, audience_user, audience_owner, audience_account}
use abcmovies.Api.Bus.{
  BusSubscriber, InMemoryBus, new_bus, set_account_entiter, buffer_size, send, to_user, to_account,
  publish, subscribe, unsubscribe, close_bus, taken, takes_from, receive,
}

-- Who may see an event, by a predicate on accounts that may be missing.
abbrev pub entitled : Option (Text → Text → Bool) → EventEnvelope → Text → Bool
entitled entiter e uid =
    ((eqb e.audience audience_user || eqb e.audience audience_owner)
      && (not (blank e.user_id) && uid == e.user_id))
    || (eqb e.audience audience_account
        && (not (blank e.account_id)
            && elim entiter [ none ↦ false | some fn ↦ fn e.account_id uid ]))

-- A subscriber after an event, in his own words.
abbrev pub offered : Option (Text → Text → Bool) → EventEnvelope → BusSubscriber → BusSubscriber
offered entiter e sub =
    if entitled entiter e sub.uid && ltb (length sub.ch) buffer_size
    then record sub { ch = sub.ch ++ (e ∷ []) }
    else sub

-- What a subscription is after an event.
abbrev pub after :
    Option (Text → Text → Bool) → EventEnvelope → Option BusSubscriber → Option BusSubscriber
after entiter e none = none
after entiter e (some sub) = some (offered entiter e sub)

-- An event goes to the end of the channel of every subscriber whom its audience entitles and whose
-- channel has room, and changes no other channel.
pub lookup-publish :
    (b : InMemoryBus) (e : EventEnvelope) (id : Text)
    → lookup id (publish b (some e)).subscribers
      ≡ after b.account_entiter e (lookup id b.subscribers)
unfolding publish send
lookup-publish b e id = elim (Option-cases (lookup id b.subscribers)) [
  | inl h ↦ elim (Option-cases b.account_entiter) [
    | inl f ↦ ground (arith, h, f, lookup-map_values (to_user e.user_id e) id b.subscribers)
    | inr (fn, f) ↦ ground (
      arith,
      h,
      f,
      lookup-map_values (to_user e.user_id e) id b.subscribers,
      lookup-map_values (to_account fn e.account_id e) id b.subscribers,
    )
  ]
  | inr (sub, h) ↦ elim (Option-cases b.account_entiter) [
    | inl f ↦ ground (arith, h, f, lookup-map_values (to_user e.user_id e) id b.subscribers)
    | inr (fn, f) ↦ ground (
      arith,
      h,
      f,
      lookup-map_values (to_user e.user_id e) id b.subscribers,
      lookup-map_values (to_account fn e.account_id e) id b.subscribers,
    )
  ]
]

pub data BusUse : Type 0 where
  publishes : Option EventEnvelope → BusUse
  subscribes : Text → Text → BusUse
  unsubscribes : Text → BusUse
  receives : Text → BusUse
  closes : BusUse

abbrev pub use_once : InMemoryBus → BusUse → InMemoryBus
use_once b (publishes event) = publish b event
use_once b (subscribes id uid) = subscribe b id uid
use_once b (unsubscribes id) = unsubscribe b id
use_once b (receives id) = receive b id
use_once b closes = close_bus b

unfoldable pub use_bus : InMemoryBus → List BusUse → InMemoryBus
use_bus b [] = b
use_bus b (u ∷ us) = use_bus (use_once b u) us

-- What waits for a subscriber: events that its user may see, and no more than the buffer holds.
abbrev pub IsAuthorized : (Text → Text → Bool) → BusSubscriber → Type 0
IsAuthorized fn sub =
    All (λ e. entitled (some fn) e sub.uid ≡ true) sub.ch × (length sub.ch ≤ buffer_size)

pub record IsRouted (fn : Text → Text → Bool) (b : InMemoryBus) : Type 0 where
  pub entiter : b.account_entiter ≡ some fn
  pub waiting :
      (id : Text) (sub : BusSubscriber) → lookup id b.subscribers ≡ some sub → IsAuthorized fn sub

All-append :
    {A : Type 0} (P : A → Type 0) (xs : List A) (x : A) → All P xs → P x → All P (xs ++ (x ∷ []))
All-append P [] x a p = (p, tt)
All-append P (y ∷ ys) x (q, a) p = (q, All-append P ys x a p)

length-append : {A : Type 0} (xs : List A) (x : A) → length (xs ++ (x ∷ [])) ≡ length xs + 1
length-append [] x = omega arith
length-append (y ∷ ys) x = omega (arith, length-append ys x)

offered-IsAuthorized :
    (fn : Text → Text → Bool) (e : EventEnvelope) (sub : BusSubscriber)
    → IsAuthorized fn sub
    → IsAuthorized fn (offered (some fn) e sub)
offered-IsAuthorized fn e sub (all, few) =
    elim (Bool-cases (entitled (some fn) e sub.uid && ltb (length sub.ch) buffer_size)) [
      | inl goes ↦ rw goes (
        All-append (λ x. entitled (some fn) x sub.uid ≡ true) sub.ch e all (ground (arith, goes)),
        ground (arith, goes, length-append sub.ch e),
      )
      | inr stays ↦ rw stays (all, few)
    ]

publish-entiter :
    (b : InMemoryBus) (event : Option EventEnvelope)
    → (publish b event).account_entiter ≡ b.account_entiter
unfolding publish
publish-entiter b none = refl
publish-entiter b (some e) = elim (Option-cases b.account_entiter) [
  | inl f ↦ ground (arith, f)
  | inr (fn, f) ↦ ground (arith, f)
]

publish-IsRouted :
    (fn : Text → Text → Bool) (b : InMemoryBus) (event : Option EventEnvelope)
    → IsRouted fn b
    → IsRouted fn (publish b event)
unfolding publish
publish-IsRouted fn b none r = r
publish-IsRouted fn b (some e) r = record {
  entiter = publish-entiter b (some e) ∙ r.entiter;
  waiting = λ id sub h. elim (Option-cases (lookup id b.subscribers)) [
    | inl gone ↦ absurd (ground (arith, gone, lookup-publish b e id, h))
    | inr (old, there) ↦
        let now : offered (some fn) e old ≡ sub =
          ground (arith, there, lookup-publish b e id, h, r.entiter) in
        subst (IsAuthorized fn) now (offered-IsAuthorized fn e old (r.waiting id old there))
  ];
}

taken-IsAuthorized :
    (fn : Text → Text → Bool) (uid : Text) (ch : List EventEnvelope)
    → IsAuthorized fn (record { uid = uid; ch = ch })
    → IsAuthorized fn (taken (record { uid = uid; ch = ch }))
taken-IsAuthorized fn uid [] a = a
taken-IsAuthorized fn uid (e ∷ rest) ((p, a), few) = (a, omega (arith, few))

takes_from-IsAuthorized :
    (fn : Text → Text → Bool) (id j : Text) (sub : BusSubscriber)
    → IsAuthorized fn sub
    → IsAuthorized fn (takes_from id j sub)
takes_from-IsAuthorized fn id j sub a = elim (Text-discrete j id) [
  | yes e ↦
      let now : taken sub ≡ takes_from id j sub = ground (arith, e) in
      subst (IsAuthorized fn) now (taken-IsAuthorized fn sub.uid sub.ch a)
  | no other ↦
      let now : sub ≡ takes_from id j sub = ground (arith, other) in subst (IsAuthorized fn) now a
]

use_once-IsRouted :
    (fn : Text → Text → Bool) (b : InMemoryBus) (u : BusUse)
    → IsRouted fn b
    → IsRouted fn (use_once b u)
unfolding subscribe unsubscribe close_bus receive lookup
use_once-IsRouted fn b (publishes event) r = publish-IsRouted fn b event r
use_once-IsRouted fn b (subscribes id uid) r = record {
  entiter = r.entiter;
  waiting = λ j sub h. elim (Text-discrete id j) [
    | yes same ↦
        let new : record { uid = uid; ch = [] } ≡ sub =
          ground
            (arith, same, h, lookup-insert id j (record { uid = uid; ch = [] }) b.subscribers) in
        subst (IsAuthorized fn) new (tt, omega arith)
    | no other ↦
        r.waiting j sub (
          ground
            (arith, other, h, lookup-insert id j (record { uid = uid; ch = [] }) b.subscribers))
  ];
}
use_once-IsRouted fn b (unsubscribes id) r = record {
  entiter = r.entiter;
  waiting = λ j sub h. r.waiting j sub (ground (arith, h, lookup-delete id j b.subscribers));
}
use_once-IsRouted fn b (receives id) r = record {
  entiter = r.entiter;
  waiting = λ j sub h. elim (Option-cases (lookup j b.subscribers)) [
    | inl gone ↦ absurd (ground (arith, gone, h, lookup-map_values (takes_from id) j b.subscribers))
    | inr (old, there) ↦
        let now : takes_from id j old ≡ sub =
          ground (arith, there, h, lookup-map_values (takes_from id) j b.subscribers) in
        subst (IsAuthorized fn) now (takes_from-IsAuthorized fn id j old (r.waiting j old there))
  ];
}
use_once-IsRouted fn b closes r = record {
  entiter = r.entiter;
  waiting = λ j sub h. absurd (ground (arith, h));
}

use_bus-IsRouted_from :
    (fn : Text → Text → Bool) (us : List BusUse) (b : InMemoryBus)
    → IsRouted fn b
    → IsRouted fn (use_bus b us)
unfolding use_bus
use_bus-IsRouted_from fn [] b r = r
use_bus-IsRouted_from fn (u ∷ us) b r =
    use_bus-IsRouted_from fn us (use_once b u) (use_once-IsRouted fn b u r)

-- However events, subscriptions and readers follow each other on a new bus with a predicate on
-- accounts, what waits for a subscriber are events that its user may see, at most as many as the
-- buffer holds.
pub use_bus-IsRouted :
    (fn : Text → Text → Bool) (us : List BusUse)
    → IsRouted fn (use_bus (set_account_entiter new_bus fn) us)
unfolding set_account_entiter new_bus lookup
use_bus-IsRouted fn us =
    use_bus-IsRouted_from fn us _
      (record { entiter = refl; waiting = λ id sub h. absurd (ground (arith, h)) })
