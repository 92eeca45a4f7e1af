-- ===== src/Delivery/Revocation.antt =====
-- What the three revocations of core/internal/delivery/delivery.go end, and what they leave alone.
use abcmovies.Base.{
  ◌≡◌, refl, ◌≢◌, Bool, true, List, Text, text, ◌==◌, if◌then◌else◌, some, lookup, text_key, arith,
  lookup-map_values, lookup-insert, contains, ◌⊎◌,
}
use abcmovies.Delivery.Session.{
  Status, Session, Engine, AccountKey, account_key, account_key_of, key_of, is_active,
}
use abcmovies.Delivery.Start.{Wiring}
use abcmovies.Delivery.Ending.{
  ended, end_where, end_indexed, revoked_reason, revoke_account, revoke_all_on_account,
  revoke_others_on_account, loses_account, complete, completed,
}
use abcmovies.Delivery.Index.{indexes}
use abcmovies.Delivery.Invariant.{Consistent}

pub lookup-end_where :
    (p : Text → Session → Bool) (reason : Text) (e : Engine) (id : Text) (s : Session)
    → lookup id e.sessions ≡ some s
    → lookup id (end_where p reason e).sessions ≡ some (if p id s then ended reason s else s)
unfolding end_where
lookup-end_where p reason e id s h =
    ground (arith, lookup-map_values (λ id s. if p id s then ended reason s else s) id e.sessions)

-- Where table and index agree, revoking a member on an account ends each of that member's active
-- sessions on it, and leaves every session of another account or member as it was.
pub revoke_account_lem :
    (e : Engine) (provider account_id member_user_id : Text) (id : Text) (s : Session)
    → Consistent e
    → lookup id e.sessions ≡ some s
    → let after = (revoke_account e provider account_id member_user_id).0 in
      (key_of s ≡ account_key_of provider account_id member_user_id
        → is_active s ≡ true
        → lookup id after.sessions ≡ some (ended revoked_reason s))
      × (key_of s ≢ account_key_of provider account_id member_user_id
          → lookup id after.sessions ≡ some s)
unfolding revoke_account
revoke_account_lem e provider account_id member_user_id id s v h =
    let key = account_key_of provider account_id member_user_id in
    let step = lookup-end_where (λ id _. indexes e.by_account key id) revoked_reason e id s h in
    (
      λ same a. ground (arith, v.indexed id s h a),
      λ other.
          ground (arith, λ (i : indexes e.by_account key id ≡ true). other (v.sound key id s i h)),
    )

-- After an account is removed, none of its sessions is active, for any member; the sessions of
-- other accounts are as they were.
pub revoke_all_on_account_lem :
    (e : Engine) (account_id id : Text) (s : Session)
    → lookup id e.sessions ≡ some s
    → let after = (revoke_all_on_account e account_id).0 in
      (s.context.account_id ≡ account_id → lookup id after.sessions ≡ some (ended revoked_reason s))
      × (s.context.account_id ≢ account_id → lookup id after.sessions ≡ some s)
unfolding revoke_all_on_account end_indexed
revoke_all_on_account_lem e account_id id s h =
    let step =
      lookup-end_where (λ _ s. s.context.account_id == account_id) revoked_reason e id s h in
    (λ same. ground arith, λ other. ground arith)

-- After an account's sharing is narrowed, the members that keep it and the sessions of other
-- accounts are as they were, and no one else has an active session on it.
pub revoke_others_on_account_lem :
    (e : Engine) (provider account_id : Text) (keep : List Text) (id : Text) (s : Session)
    → lookup id e.sessions ≡ some s
    → (u : Session) × (lookup id (revoke_others_on_account e provider account_id keep).0.sessions
        ≡ some u)
      × (u.context ≡ s.context)
      × ((contains keep s.context.member_user_id ≡ true)
            ⊎ (s.context.provider ≢ provider)
            ⊎ (s.context.account_id ≢ account_id)
          → u ≡ s)
      × (u.context.provider ≡ provider
          → u.context.account_id ≡ account_id
          → is_active u ≡ true
          → contains keep u.context.member_user_id ≡ true)
unfolding revoke_others_on_account end_indexed
revoke_others_on_account_lem e provider account_id keep id s h = (
  if loses_account provider account_id keep s then ended (text "account sharing narrowed") s else s,
  lookup-end_where (λ _ s. loses_account provider account_id keep s)
      (text "account sharing narrowed") e id s h,
  ground arith,
  λ spared. ground arith,
  λ p a u. ground arith,
)

complete_done :
    (e : Engine) (w : Wiring) (id : Text) (s : Session)
    → lookup id e.sessions ≡ some s
    → (lookup id (complete e w id).0.sessions ≡ some (completed w s))
      × ((complete e w id).0.by_account ≡ e.by_account)
unfolding complete
complete_done e w id s h =
    rw (h, complete) (ground (arith, lookup-insert id id (completed w s) e.sessions), refl)

completed_status : (w : Wiring) (s : Session) → (completed w s).status ≡ Status.done
unfolding completed
completed_status w s = ground arith

revoke_indexed :
    (e : Engine) (key : AccountKey) (id : Text) (s : Session)
    → lookup id e.sessions ≡ some s
    → indexes e.by_account key id ≡ true
    → lookup id (revoke_account e key.provider key.account_id key.member_user_id).0.sessions
      ≡ some (ended revoked_reason s)
unfolding revoke_account
revoke_indexed e key id s h i =
    ground (arith, lookup-end_where (λ id _. indexes e.by_account key id) revoked_reason e id s h)

-- A session that ran to its end is not safe from a later revocation of its member: `Complete`
-- leaves it in the index, and `RevokeAccount` then turns it from done to revoked.
pub revoke-complete :
    (e : Engine) (w : Wiring) (id : Text) (s : Session)
    → Consistent e
    → lookup id e.sessions ≡ some s
    → is_active s ≡ true
    → let finished = (complete e w id).0 in
      let c = s.context in
      (lookup id finished.sessions ≡ some (completed w s))
      × ((completed w s).status ≡ Status.done)
      × (lookup id (revoke_account finished c.provider c.account_id c.member_user_id).0.sessions
          ≡ some (ended revoked_reason (completed w s)))
revoke-complete e w id s v h a =
    let (there, same_index) = complete_done e w id s h in
    (
      there,
      completed_status w s,
      revoke_indexed (complete e w id).0 (key_of s) id (completed w s) there
          (rw same_index (v.indexed id s h a)),
    )
