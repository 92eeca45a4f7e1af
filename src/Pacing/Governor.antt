-- ===== src/Pacing/Governor.antt =====
-- The `Governor` of core/internal/pacing/pacing.go: the shared back-off of a provider.
use abcmovies.Base.{
  ℕ, suc, ◌+◌, ◌-◌, ◌*◌, ◌%◌, ◌^◌, ◌≤◌, ◌<◌, ◌≡◌, ◌≢◌, ◌||◌, ltb, leb, eqb, if◌then◌else◌, Option,
  none, some, arith,
}

pub record Governor : Type 0 where
  -- `time.Second / RequestsPerSec`, where the rate is positive
  pub rate_interval : Option ℕ
  pub next_ok : ℕ
  pub fails : ℕ
  pub backoff_until : ℕ
  pub base : ℕ
  pub max : ℕ
  pub waiters : ℕ

-- `BusyError`, an admission, or a sleep into a slot.
pub data Answer : Type 0 where
  degraded : ℕ → Answer
  admitted : Governor → Answer
  parked : ℕ → Governor → Answer

-- `Allow` up to its unlock.
unfoldable pub allow : Governor → ℕ → Answer
allow g now = if ltb now g.backoff_until then degraded g.waiters else elim g.rate_interval [
  | none ↦ admitted g
  | some interval ↦
      if ltb now g.next_ok
      then parked (g.next_ok - now)
          (record g { next_ok = g.next_ok + interval; waiters = suc g.waiters })
      else admitted (record g { next_ok = now + interval })
]

-- A parked caller leaves, by its slot or by its context.
unfoldable pub unpark : Governor → Governor
unpark g = record g { waiters = g.waiters - 1 }

-- `base << (fails - 1)` in 64 bits, as an unsigned number: from `2 ^ 63` it is negative.
unfoldable pub shifted : ℕ → ℕ → ℕ
shifted base fails = (base * 2 ^ (fails - 1)) % 18446744073709551616

unfoldable pub delay : ℕ → ℕ → ℕ → ℕ
delay base max fails =
    let d = shifted base fails in
    if leb 9223372036854775808 d || (eqb d 0 || ltb max d) then max else d

unfoldable pub note_error : Governor → ℕ → Governor
note_error g now =
    let fails = suc g.fails in
    record g { fails = fails; backoff_until = now + delay g.base g.max fails }

unfoldable pub note_success : Governor → Governor
note_success g = record g { fails = 0; backoff_until = 0 }

delay-within : (base max fails : ℕ) → delay base max fails ≤ max
unfolding delay
delay-within base max fails = ground arith

delay-positive : (base max fails : ℕ) → 0 < max → 0 < delay base max fails
unfolding delay
delay-positive base max fails h = ground arith

-- Where the maximum back-off is positive, one error degrades the provider for everyone at once, and
-- never for longer than the maximum, whatever the shift overflows to; a success ends it.
pub allow-note_error :
    (g : Governor) (now : ℕ)
    → 0 < g.max
    → (allow (note_error g now) now ≡ degraded g.waiters)
      × ((later position : ℕ)
          → now + g.max ≤ later
          → allow (note_error g now) later ≢ degraded position)
      × ((later position : ℕ) → allow (note_success (note_error g now)) later ≢ degraded position)
unfolding allow note_error note_success
allow-note_error g now h = (
  ground (arith, delay-positive g.base g.max (suc g.fails)),
  λ later position long e. ground (arith, delay-within g.base g.max (suc g.fails)),
  λ later position e. ground arith,
)
