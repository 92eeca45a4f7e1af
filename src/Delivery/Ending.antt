-- ===== src/Delivery/Ending.antt =====
-- The methods of core/internal/delivery/delivery.go that end sessions: the three revocations,
-- `ApplyAccountCap` and `Complete`.
use abcmovies.Base.{
  ℕ, ◌-◌, Bool, not, ◌&&◌, List, [], ◌∷◌, Text, text, ◌==◌, if◌then◌else◌, none, some, insert,
  delete, lookup, map_values, select_pairs, contains, text_key, ltb, eqb, length, take, text_lt,
  map,
}
use abcmovies.Base.Int.{ℤ, pos, negsuc}
use abcmovies.Policy.Limits.{Set, with_overlay, effective_account_limit}
use abcmovies.Delivery.Session.{
  Status, Session, Engine, Effect, AccountKey, account_key_of, is_active, key_of, to_job, index_of,
  remove_index, recorded, aborted, finalized, not_found, unknown, account_key,
}
use abcmovies.Delivery.Start.{
  Wiring, Check, passed, refused, resolve_constraints, active_on_account,
}

-- The session as a revocation leaves it.
abbrev pub ended : Text → Session → Session
ended reason s = record s { status = Status.revoked; error = reason }

-- The sink is told to discard, and the job recorded, for each session that ends.
unfoldable pub end_effects : Text → List (Text × Session) → List Effect → List Effect
end_effects reason [] log = log
end_effects reason ((id, s) ∷ victims) log =
    end_effects reason victims
      (recorded (to_job (ended reason s)) ∷ (if s.has_sink then aborted s.id ∷ log else log))

-- The loop over the table that the revocations share, which writes through each pointer that
-- passes the test.
unfoldable pub end_where : (Text → Session → Bool) → Text → Engine → Engine
end_where p reason e = record e {
  sessions = map_values (λ id s. if p id s then ended reason s else s) e.sessions;
  effects = end_effects reason (select_pairs p e.sessions) e.effects;
}

-- `delete(e.byAccount[key], id)` for each session that ends.
unfoldable pub unindex_all :
    List (Text × Session) → List (AccountKey × List Text) → List (AccountKey × List Text)
unindex_all [] index = index
unindex_all ((id, s) ∷ victims) index = unindex_all victims (remove_index (key_of s) id index)

unfoldable pub end_indexed : (Text → Session → Bool) → Text → Engine → Engine × ℕ
end_indexed p reason e =
    let victims = select_pairs p e.sessions in
    (
      record (end_where p reason e) { by_account = unindex_all victims e.by_account },
      length victims,
    )

abbrev pub revoked_reason : Text
revoked_reason = text "account revoked"

-- The ids under the key, whatever the state of their sessions; the key leaves the index.
unfoldable pub revoke_account : Engine → Text → Text → Text → Engine × ℕ
revoke_account e provider account_id member_user_id =
    let key = account_key_of provider account_id member_user_id in
    let ids = index_of key e.by_account in
    let hit : Text → Session → Bool = λ id _. contains ids id in
    (
      record (end_where hit revoked_reason e) { by_account = delete key e.by_account },
      length (select_pairs hit e.sessions),
    )

unfoldable pub revoke_all_on_account : Engine → Text → Engine × ℕ
revoke_all_on_account e account_id =
    end_indexed (λ _ s. s.context.account_id == account_id) revoked_reason e

abbrev pub loses_account : Text → Text → List Text → Session → Bool
loses_account provider account_id keep s =
    s.context.provider == provider
    && (s.context.account_id == account_id
        && (is_active s && not (contains keep s.context.member_user_id)))

unfoldable pub revoke_others_on_account : Engine → Text → Text → List Text → Engine × ℕ
revoke_others_on_account e provider account_id keep_members =
    end_indexed (λ _ s. loses_account provider account_id keep_members s)
      (text "account sharing narrowed") e

-- The order of eviction: by start, then by id.
unfoldable pub evicts_before : Text × Session → Text × Session → Bool
evicts_before (i, a) (j, b) =
    if eqb a.created_at b.created_at then text_lt i j else ltb a.created_at b.created_at

unfoldable pub insert_sorted : Text × Session → List (Text × Session) → List (Text × Session)
insert_sorted x [] = x ∷ []
insert_sorted x (y ∷ l) = if evicts_before y x then y ∷ insert_sorted x l else x ∷ y ∷ l

-- `sort.Slice(active, …)`
unfoldable pub sort_by_start : List (Text × Session) → List (Text × Session)
sort_by_start [] = []
sort_by_start (x ∷ l) = insert_sorted x (sort_by_start l)

-- How many sessions are over the limit. A negative limit, which no validated policy has, slices out
-- of range in the source; here nothing is cut.
unfoldable pub excess : ℕ → ℤ → ℕ
excess n (pos limit) = n - limit
excess n (negsuc k) = 0

-- The ids of the sessions that are over the limit, the oldest first.
unfoldable pub cut : Engine → Text → Text → ℤ → List Text
cut e provider account_id limit =
    let active = select_pairs (λ _ s. active_on_account provider account_id s) e.sessions in
    map (λ x. x.0) (take (excess (length active) limit) (sort_by_start active))

-- The loop over the sessions that are cut, each of which is looked at again.
unfoldable pub enforce_cap : Engine → Text → Text → ℤ → Engine × ℕ
enforce_cap e provider account_id limit =
    end_indexed (λ id s. contains (cut e provider account_id limit) id && is_active s)
      (text "stream limit lowered by the account owner") e

-- The account's allowance, as admission computes it.
abbrev pub limit_under : Engine → Set × Set → ℤ
limit_under e constraints =
    effective_account_limit (with_overlay e.instance_policy constraints.0) constraints.1

unfoldable pub apply_account_cap : Engine → Wiring → Text → Text → Bool → Engine × Check ℕ
apply_account_cap e w provider account_id enforce_now =
    elim (resolve_constraints w provider account_id) [
      | none ↦ (e, refused unknown)
      | some constraints ↦
          let limit = limit_under e constraints in
          let (e', killed) = enforce_cap e provider account_id limit in
          if enforce_now then (e', passed killed) else (e, passed 0)
    ]

-- The session as `Complete` leaves it.
unfoldable pub completed : Wiring → Session → Session
completed w s =
    let done = record s { status = Status.done } in
    if done.has_sink
    then elim (w.finalize done) [ none ↦ done | some x ↦ record done { error = x } ]
    else done

-- `Complete(id)`
unfoldable pub complete : Engine → Wiring → Text → Engine × Check (Unit {0})
complete e w id = elim (lookup id e.sessions) [
  | none ↦ (e, refused not_found)
  | some s ↦ (
    record e {
      sessions = insert id (completed w s) e.sessions;
      effects =
          recorded (to_job (completed w s))
          ∷ (if s.has_sink then finalized id ∷ e.effects else e.effects);
    },
    passed tt,
  )
]
