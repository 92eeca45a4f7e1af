-- ===== src/Delivery/Quota.antt =====
-- When `Start` of core/internal/delivery/delivery.go refuses a stream for quota.
use abcmovies.Base.{
  ℕ, suc, ◌≤◌, ◌≡◌, refl, ap, ◌≢◌, ◌⊎◌, ◌↔◌, inl, inr, none, Bool-cases, Bool, true, false, ◌||◌,
  List, some, count_values, text_key, arith,
}
use abcmovies.Base.Int.{ℤ, pos, negsuc, at_least}
use abcmovies.Policy.Limits.{streams, effective_account_limit}
use abcmovies.Delivery.Manifest.{Track}
use abcmovies.Delivery.Session.{Session, Engine, session_id, quota}
use abcmovies.Delivery.Start.{
  Check, Wiring, StartRequest, Prepared, passed, refused, active_for_member, active_on_account,
  register, launch, admit, create, prepare, start, new_session,
}

launch_not_quota :
    (e : Engine) (w : Wiring) (s : Session) (tracks : List Track) (position : ℕ)
    → (launch e w s tracks).1 ≢ refused (quota position)
unfolding launch
launch_not_quota e w s tracks position h = ground arith

-- One more stream fits under a limit.
abbrev pub Fits : ℕ → ℤ → Type 0
Fits active limit = (most : ℕ) × (limit ≡ pos most) × (suc active ≤ most)

at_least-Fits : (active : ℕ) (limit : ℤ) → at_least active limit ≡ false → Fits active limit
at_least-Fits active (pos most) h = (most, refl, ground arith)
at_least-Fits active (negsuc n) h = absurd (ground arith)

Fits-at_least : (active : ℕ) (limit : ℤ) → Fits active limit → at_least active limit ≡ false
Fits-at_least active limit (most, e, few) = ground (arith, e, few)

-- Both limits leave room for one more stream of the member on the account.
abbrev pub HasRoom : Engine → StartRequest → Prepared → Type 0
HasRoom e req p =
    Fits (count_values (active_for_member req.member_user_id) e.sessions)
      (streams e.instance_policy).0
    × Fits (count_values (active_on_account req.provider req.account_id) e.sessions)
        (effective_account_limit p.effective_policy p.cap_set)

-- A refusal for quota, with the position that it tells.
abbrev pub IsQuota : Check Session → Type 0
IsQuota c = (position : ℕ) × (c ≡ refused (quota position))

-- The sink is made, or none is needed.
abbrev pub SinkIsMade : Engine → Wiring → StartRequest → ℕ → Prepared → Type 0
SinkIsMade e w req now p =
    (w.new_sink ≡ none)
    ⊎ ((make : Session → List Track → Bool) × (w.new_sink ≡ some make)
        × (make (new_session (session_id (suc e.seq)) req now p) p.tracks ≡ true))

start_admits :
    (e : Engine) (w : Wiring) (req : StartRequest) (now : ℕ) (p : Prepared)
    → prepare e w req ≡ passed p
    → SinkIsMade e w req now p
    → (s : Session) × (start e w req now ≡ admit (record e { seq = suc e.seq }) w s p)
      × (s.context ≡ (new_session (session_id (suc e.seq)) req now p).context)
unfolding start create new_session
start_admits e w req now p checked (inl direct) =
    (new_session (session_id (suc e.seq)) req now p, ground (arith, checked, direct), refl)
start_admits e w req now p checked (inr (make, wired, made)) = (
  record (new_session (session_id (suc e.seq)) req now p) { has_sink = true },
  ground (arith, checked, wired, made),
  refl,
)

admit-IsQuota :
    (e : Engine) (w : Wiring) (s : Session) (p : Prepared)
    → let member = count_values (active_for_member s.context.member_user_id) e.sessions in
      let account =
        count_values (active_on_account s.context.provider s.context.account_id) e.sessions in
      let member_full = at_least member (streams e.instance_policy).0 in
      let account_full = at_least account (effective_account_limit p.effective_policy p.cap_set) in
      ((member_full || account_full) ≡ true → IsQuota (admit e w s p).1 × ((admit e w s p).0 ≡ e))
      × (IsQuota (admit e w s p).1 → (member_full || account_full) ≡ true)
unfolding admit
admit-IsQuota e w s p =
    let member = count_values (active_for_member s.context.member_user_id) e.sessions in
    let account =
      count_values (active_on_account s.context.provider s.context.account_id) e.sessions in
    elim (Bool-cases (at_least member (streams e.instance_policy).0)) [
      | inl full ↦ rw (admit, full) (λ h. ((member, refl), refl), λ h. refl)
      | inr room ↦
          elim (Bool-cases
            (at_least account (effective_account_limit p.effective_policy p.cap_set))) [
              | inl full ↦ rw (admit, room, full) (λ h. ((account, refl), refl), λ h. refl)
              | inr free ↦
                  rw (admit, room, free)
                    (
                      λ h. absurd (ground arith),
                      λ (position, h).
                          absurd (launch_not_quota (register e s) w s p.tracks position h),
                    )
            ]
    ]

full-HasRoom :
    (e : Engine) (req : StartRequest) (p : Prepared)
    → let member = count_values (active_for_member req.member_user_id) e.sessions in
      let account = count_values (active_on_account req.provider req.account_id) e.sessions in
      let full =
        at_least member (streams e.instance_policy).0
        || at_least account (effective_account_limit p.effective_policy p.cap_set) in
      (full ≡ true → ¬ HasRoom e req p) × (¬ HasRoom e req p → full ≡ true)
full-HasRoom e req p =
    let member = count_values (active_for_member req.member_user_id) e.sessions in
    let account = count_values (active_on_account req.provider req.account_id) e.sessions in
    let streams_limit = (streams e.instance_policy).0 in
    let account_limit = effective_account_limit p.effective_policy p.cap_set in
    (
      λ full (one, other). ground (
        arith,
        full,
        Fits-at_least member streams_limit one,
        Fits-at_least account account_limit other,
      ),
      λ none_fits. elim (Bool-cases (at_least member streams_limit)) [
        | inl full ↦ ground (arith, full)
        | inr room ↦ elim (Bool-cases (at_least account account_limit)) [
          | inl full ↦ ground (arith, full)
          | inr free ↦ absurd (
              none_fits
                (at_least-Fits member streams_limit room, at_least-Fits account account_limit free))
        ]
      ],
    )

-- Where the checks pass and the sink is made, `Start` is refused for quota exactly if the member's
-- limit or the account's has no room for one more active session; and no session is added then.
pub start-IsQuota :
    (e : Engine) (w : Wiring) (req : StartRequest) (now : ℕ) (p : Prepared)
    → prepare e w req ≡ passed p
    → SinkIsMade e w req now p
    → (IsQuota (start e w req now).1 ↔ (¬ HasRoom e req p))
      × (IsQuota (start e w req now).1 → (start e w req now).0.sessions ≡ e.sessions)
unfolding new_session
start-IsQuota e w req now p checked sink =
    let (s, same, context) = start_admits e w req now p checked sink in
    let e' = record e { seq = suc e.seq } in
    let (refuses, only) = rw context at (admit-IsQuota e' w s p) in
    let (crowded, full) = full-HasRoom e req p in
    rw same (
      (λ h. crowded (only h), λ no_room. (refuses (full no_room)).0),
      λ h. ap (λ (z : Engine). z.sessions) (refuses (only h)).1,
    )
