-- ===== src/Delivery/Watchdog.antt =====
-- The watchdog of core/internal/delivery/delivery.go ends exactly the sessions that are not live.
use abcmovies.Base.{
  ℕ, ◌+◌, ◌-◌, ◌≤◌, ◌≡◌, refl, inl, inr, Bool, true, false, List, [], ◌∷◌, map, Text, if◌then◌else◌,
  Option, none, some, lookup, insert, text_key, arith, contains, lookup-delete, lookup-insert,
  DistinctKeys, Option-cases,
}
use abcmovies.Delivery.Pipeline.{Goal}
use abcmovies.Delivery.Session.{Session, Engine, is_active}
use abcmovies.Delivery.Start.{passed}
use abcmovies.Delivery.Liveness.{expire, dead, bury_one, bury, sweep, heartbeat}
use abcmovies.Delivery.Invariant.{Consistent, write-Agrees}

abbrev ids_of : List Session → List Text
ids_of = map (λ d. d.id)

lookup-bury :
    (ds : List Session) (e : Engine) (j : Text)
    → lookup j (bury ds e).sessions ≡ (if contains (ids_of ds) j then none else lookup j e.sessions)
unfolding bury bury_one contains
lookup-bury [] e j = refl
lookup-bury (d ∷ ds) e j =
    ground (arith, lookup-bury ds (bury_one d e) j, lookup-delete d.id j e.sessions)

expire-id : (e : Engine) (now : ℕ) (s d : Session) → expire e now s ≡ some d → d.id ≡ s.id
unfolding expire
expire-id e now s d h = ground arith

abbrev expires : Engine → ℕ → Session → Bool
expires e now s = elim (expire e now s) [ none ↦ false | some d ↦ true ]

abbrev Named : List (Text × Session) → Type 0
Named m = (id : Text) (s : Session) → lookup id m ≡ some s → s.id ≡ id

abbrev found_dead : Engine → ℕ → Option Session → Bool
found_dead e now none = false
found_dead e now (some s) = expires e now s

Named-tail :
    (j : Text) (v : Session) (m : List (Text × Session))
    → lookup j m ≡ none
    → Named ((j, v) ∷ m)
    → Named m
unfolding lookup
Named-tail j v m fresh named id s h = named id s (ground arith)

contains-dead :
    (e : Engine) (now : ℕ) (m : List (Text × Session)) (j : Text)
    → DistinctKeys m
    → Named m
    → contains (ids_of (dead e now m)) j ≡ found_dead e now (lookup j m)
unfolding dead contains lookup
contains-dead e now [] j d named = refl
contains-dead e now ((i, v) ∷ m) j d named =
    let own : v.id ≡ i = named i v (ground arith) in
    let rest = contains-dead e now m j d.1 (Named-tail i v m d.0 named) in
    elim (Option-cases (expire e now v)) [
      | inl lives ↦ ground (arith, lives, rest)
      | inr (x, dies) ↦ ground (arith, dies, expire-id e now v x dies, rest)
    ]

-- How long a session may be silent, and when it was last heard of.
abbrev pub allowance : Engine → Goal → ℕ
allowance e Goal.play = e.interval + e.grace
allowance e g = e.ttl

abbrev pub last_sign : Session → Goal → ℕ
last_sign s Goal.play = s.last_heartbeat
last_sign s g = s.last_progress

-- What a session must show to outlive a sweep: a play has been heard of within the interval and its
-- grace, any other session has progressed within the TTL, and it is no older than the TTL.
abbrev pub IsLive : Engine → ℕ → Session → Type 0
IsLive e now s = (now - last_sign s s.goal ≤ allowance e s.goal) × (now - s.created_at ≤ e.ttl)

IsLive-kept :
    (e : Engine) (now : ℕ) (s : Session)
    → is_active s ≡ true
    → IsLive e now s
    → expire e now s ≡ none
unfolding expire
IsLive-kept e now s a l = ground (arith, a, l.0, l.1)

kept-IsLive :
    (e : Engine) (now : ℕ) (s : Session)
    → is_active s ≡ true
    → expire e now s ≡ none
    → IsLive e now s
unfolding expire
kept-IsLive e now s a h = ground (arith, a)

inactive_kept : (e : Engine) (now : ℕ) (s : Session) → is_active s ≡ false → expire e now s ≡ none
unfolding expire
inactive_kept e now s a = rw a

lookup-sweep :
    (e : Engine) (now : ℕ) (id : Text) (s : Session)
    → Consistent e
    → lookup id e.sessions ≡ some s
    → lookup id (sweep e now).sessions ≡ (if expires e now s then none else some s)
unfolding sweep
lookup-sweep e now id s v h = ground (
  arith,
  lookup-bury (dead e now e.sessions) e id,
  contains-dead e now e.sessions id v.distinct v.named,
)

-- Where table and index agree, a sweep keeps an active session as it was if it is live and drops it
-- from the table if it is not; a session that has ended is never touched.
pub sweep_lem :
    (e : Engine) (now : ℕ) (id : Text) (s : Session)
    → Consistent e
    → lookup id e.sessions ≡ some s
    → (is_active s ≡ true → IsLive e now s → lookup id (sweep e now).sessions ≡ some s)
      × (is_active s ≡ true → ¬ IsLive e now s → lookup id (sweep e now).sessions ≡ none)
      × (is_active s ≡ false → lookup id (sweep e now).sessions ≡ some s)
sweep_lem e now id s v h =
    let swept = lookup-sweep e now id s v h in
    (
      λ a l. ground (arith, swept, IsLive-kept e now s a l),
      λ a gone. elim (Option-cases (expire e now s)) [
        | inl kept ↦ absurd (gone (kept-IsLive e now s a kept))
        | inr (d, dies) ↦ ground (arith, swept, dies)
      ],
      λ a. ground (arith, swept, inactive_kept e now s a),
    )

heartbeat_own :
    (e : Engine) (id : Text) (s : Session) (beat : ℕ)
    → lookup id e.sessions ≡ some s
    → is_active s ≡ true
    → heartbeat e id s.context.member_user_id beat ≡ (
      record e { sessions = insert id (record s { last_heartbeat = beat }) e.sessions },
      passed tt,
    )
unfolding heartbeat
heartbeat_own e id s beat h a = rw (h, heartbeat) (ground (arith, a))

-- A play session that heartbeats in time is not ended by the watchdog before its TTL: whatever the
-- clock read before, the sweep finds it with the heartbeat's time and otherwise unchanged.
pub sweep-heartbeat :
    (e : Engine) (id : Text) (s : Session) (beat now : ℕ)
    → Consistent e
    → lookup id e.sessions ≡ some s
    → is_active s ≡ true
    → s.goal ≡ Goal.play
    → now - beat ≤ e.interval + e.grace
    → now - s.created_at ≤ e.ttl
    → let (e', r) = heartbeat e id s.context.member_user_id beat in
      (r ≡ passed tt)
      × (lookup id (sweep e' now).sessions ≡ some (record s { last_heartbeat = beat }))
sweep-heartbeat e id s beat now v h a g fresh young =
    let s' = record s { last_heartbeat = beat } in
    let e' = record e { sessions = insert id s' e.sessions } in
    let there : lookup id e'.sessions ≡ some s' =
      ground (arith, lookup-insert id id s' e.sessions) in
    rw (heartbeat_own e id s beat h a) (
      refl,
      (sweep_lem e' now id s' (write-Agrees v id s s' h refl refl (λ _. a)) there).0 a
          (ground (arith, g, fresh), young),
    )
