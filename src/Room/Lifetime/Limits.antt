-- ===== src/Room/Lifetime/Limits.antt =====
-- The end-of-call timer against the cap of the configuration and the end in the rules.
use obelisk_sfu.Prelude.{
  ℕ, true, Option, none, some, ◌≡◌, ◌≤◌, ◌<◌, ◌⊎◌, ◌+◌, ◌-◌, ◌*◌, ◌/◌, refl, inl, inr, arith,
  Bool-cases, leb, min,
}
use obelisk_sfu.Config.{Config}
use obelisk_sfu.Room.{Room, publish_active}
use obelisk_sfu.Room.Roster.{is_active}
use obelisk_sfu.Room.Lifetime.{
  is_closed, cap, earliest, arm_ends_at, schedule_ends_at, close, close_end,
}
use obelisk_sfu.Room.Invariant.Closing.{close_begin-IsStopped}

-- The room is closed, or its end-of-call timer is set to a later time, at most at `limit` in
-- seconds.
abbrev pub IsLimited : ℕ → ℕ → Room → Type 0
IsLimited now limit r =
    (is_closed r.status ≡ true)
    ⊎ ((t : ℕ) × (r.ends_at_timer ≡ some t) × (now < t) × (t / 1000 ≤ limit))

closed-close : (cfg : Config) (now : ℕ) (r : Room) → is_closed (close cfg now r).status ≡ true
unfolding close close_end publish_active
closed-close cfg now r = elim (Bool-cases (is_closed r.status)) [
  | inl c ↦ rw c c
  | inr o ↦ rw (o, (close_begin-IsStopped cfg now r).status) refl
]

arm_ends_at-limit :
    (cfg : Config) (now e limit : ℕ) (r : Room)
    → e ≤ limit
    → IsLimited now limit (arm_ends_at cfg now (some e) r)
unfolding arm_ends_at
arm_ends_at-limit cfg now e limit r h = elim (Bool-cases (leb e (now / 1000))) [
  | inl past ↦ rw past (inl (closed-close cfg now r))
  | inr later ↦
      let after : now / 1000 < e = ground arith in
      rw later (inr (now + (e - now / 1000) * 1000, refl, omega arith, omega (arith, h, after)))
]

earliest-left : (a : ℕ) (b : Option ℕ) → (e : ℕ) × (earliest (some a) b ≡ some e) × (e ≤ a)
unfolding earliest
earliest-left a none = (a, refl, omega arith)
earliest-left a (some b) = (min b a, refl, omega arith)

earliest-right : (a : Option ℕ) (b : ℕ) → (e : ℕ) × (earliest a (some b) ≡ some e) × (e ≤ b)
unfolding earliest
earliest-right none b = (b, refl, omega arith)
earliest-right (some a) b = (min b a, refl, omega arith)

schedule_ends_at-of_earliest :
    (cfg : Config) (now e limit : ℕ) (r : Room)
    → is_active r.status ≡ true
    → earliest (cap cfg r) r.rules.ends_at ≡ some e
    → e ≤ limit
    → IsLimited now limit (schedule_ends_at cfg now r)
unfolding schedule_ends_at
schedule_ends_at-of_earliest cfg now e limit r act eq h =
    rw (act, eq) (arm_ends_at-limit cfg now e limit (record r { ends_at_timer = none }) h)

-- Once the end of an active room is scheduled, whatever was set before, the room is closed, or
-- its timer is set to a later time that does not pass the cap of the configuration, where there
-- is one, counted from the start; and the same holds of the end that its rules give.
pub schedule_ends_at-limits :
    (cfg : Config) (now limit : ℕ) (r : Room)
    → is_active r.status ≡ true
    → ((0 < cfg.max_call_duration_seconds) × (limit ≡ r.started_at + cfg.max_call_duration_seconds))
      ⊎ (r.rules.ends_at ≡ some limit)
    → IsLimited now limit (schedule_ends_at cfg now r)
schedule_ends_at-limits cfg now limit r act (inl (on, eq)) =
    let c : cap cfg r ≡ some (r.started_at + cfg.max_call_duration_seconds) = ground arith in
    let first = earliest-left (r.started_at + cfg.max_call_duration_seconds) r.rules.ends_at in
    schedule_ends_at-of_earliest cfg now first.0 limit r act (rw c first.1)
      (omega (arith, eq, first.2))
schedule_ends_at-limits cfg now limit r act (inr eq) =
    let first = earliest-right (cap cfg r) limit in
    schedule_ends_at-of_earliest cfg now first.0 limit r act (rw eq first.1) first.2
