-- ===== src/Membership/Counting.antt =====
-- The reference counts against the history of calls, and that no subscription is lost.
use obelisk_sfu.Prelude.{
  ℕ, suc, String, List, [], ◌∷◌, Option, none, some, ◌==◌, ◌≡◌, ◌∙◌, ◌↔◌, ◌<◌, ◌-◌, refl,
  if◌then◌else◌, ltb, arith, eq_iff, Option-cases, Bool-cases, ltb→lt, inl, inr,
}
use obelisk_sfu.Map.{get, set}
use obelisk_sfu.Map.Laws.{Nodup, get-set, get-delete_ne, get-delete_self, Nodup-set, Nodup-delete}
use obelisk_sfu.Map.Values.{Each, Each-set, Each-delete, Each-get}
use obelisk_sfu.Nostr.{Event}
use obelisk_sfu.Membership.{
  ChannelState, MembershipTracker, init, watch, ingest, ingest_state, reject, ready_timeout,
  release,
}

-- The calls and the events that reach the tracker.
pub data Call (C : Type 0) : Type 0 where
  watches releases : String → Call C
  arrives : String → Event C → Call C
  times_out : String → ℕ → Call C

module _ {C : Type 0} where
  unfoldable pub step : MembershipTracker → Call C → MembershipTracker
  step m (watches c) = watch c m
  step m (releases c) = release c m
  step m (arrives c ev) = ingest c ev m
  step m (times_out c sub) = ready_timeout c sub m

  -- The state after a history of calls, latest first.
  unfoldable pub replay : List (Call C) → MembershipTracker
  replay [] = init
  replay (c ∷ older) = step (replay older) c

  -- How many holders a channel has: a release without a holder counts for nothing.
  pub holders : String → List (Call C) → ℕ
  holders id [] = 0
  holders id (watches c ∷ older) = if c == id then suc (holders id older) else holders id older
  holders id (releases c ∷ older) = if c == id then holders id older - 1 else holders id older
  holders id (_ ∷ older) = holders id older

abbrev pub refcount_of : Option ChannelState → ℕ
refcount_of none = 0
refcount_of (some state) = state.refcount

-- Every entry has a holder.
abbrev IsHeld : String → ChannelState → Type 0
IsHeld id state = 0 < state.refcount

pub record IsValid (m : MembershipTracker) : Type 0 where
  pub nodup : Nodup m.channels
  pub held : Each IsHeld m.channels

set-IsValid :
    (c : String) (state : ChannelState) (m : MembershipTracker) (subs : List ℕ) (next : ℕ)
    → 0 < state.refcount
    → IsValid m
    → IsValid (record { channels = set c state m.channels; open_subs = subs; next_sub = next })
set-IsValid c state m subs next h v = record {
  nodup = Nodup-set c state m.channels v.nodup;
  held = Each-set IsHeld c state m.channels h v.held;
}

held-refcount :
    (c : String) (m : MembershipTracker) (state : ChannelState)
    → IsValid m
    → get c m.channels ≡ some state
    → 0 < state.refcount
held-refcount c m state v e = Each-get IsHeld c state m.channels v.held e

watch-IsValid : (c : String) (m : MembershipTracker) → IsValid m → IsValid (watch c m)
unfolding watch
watch-IsValid c m v = elim (Option-cases (get c m.channels)) [
  | inl e ↦ rw (e, watch) (set-IsValid c _ m _ _ (omega arith) v)
  | inr (s, e) ↦ rw (e, watch) (set-IsValid c _ m _ _ (omega arith) v)
]

refcount-ingest_state :
    {C : Type 0} (ev : Event C) (s : ChannelState) → (ingest_state ev s).refcount ≡ s.refcount
unfolding ingest_state
refcount-ingest_state ev s = ground arith

ingest-IsValid :
    {C : Type 0} (c : String) (ev : Event C) (m : MembershipTracker)
    → IsValid m
    → IsValid (ingest c ev m)
unfolding ingest
ingest-IsValid c ev m v = elim (Option-cases (get c m.channels)) [
  | inl e ↦ rw (e, ingest) v
  | inr (s, e) ↦
      rw (e, ingest)
        (set-IsValid c _ m _ _ (omega (arith, refcount-ingest_state ev s, held-refcount c m s v e))
          v)
]

ready_timeout-IsValid :
    (c : String) (sub : ℕ) (m : MembershipTracker) → IsValid m → IsValid (ready_timeout c sub m)
unfolding ready_timeout
ready_timeout-IsValid c sub m v = elim (Option-cases (get c m.channels)) [
  | inl e ↦ rw (e, ready_timeout) v
  | inr (s, e) ↦
      rw (e, ready_timeout)
        (ground (
          arith,
          v,
          set-IsValid c (record s { ready = reject s.ready }) m m.open_subs m.next_sub
              (held-refcount c m s v e) v,
        ))
]

release-IsValid : (c : String) (m : MembershipTracker) → IsValid m → IsValid (release c m)
unfolding release
release-IsValid c m v = elim (Option-cases (get c m.channels)) [
  | inl e ↦ rw (e, release) v
  | inr (s, e) ↦ elim (Bool-cases (ltb 0 (s.refcount - 1))) [
    | inl more ↦
        rw (e, release, more)
          (set-IsValid c _ m _ _
            (omega (arith, held-refcount c m s v e, ltb→lt 0 (s.refcount - 1) more)) v)
    | inr last ↦
        rw (e, release, last)
          (record {
            nodup = Nodup-delete c m.channels v.nodup;
            held = Each-delete IsHeld c m.channels v.held;
          })
  ]
]

step-IsValid : {C : Type 0} (m : MembershipTracker) (c : Call C) → IsValid m → IsValid (step m c)
unfolding step
step-IsValid m (watches c) v = watch-IsValid c m v
step-IsValid m (releases c) v = release-IsValid c m v
step-IsValid m (arrives c ev) v = ingest-IsValid c ev m v
step-IsValid m (times_out c sub) v = ready_timeout-IsValid c sub m v

pub replay-IsValid : {C : Type 0} (history : List (Call C)) → IsValid (replay history)
unfolding replay
replay-IsValid [] = record { nodup = tt; held = tt }
replay-IsValid (c ∷ older) = step-IsValid (replay older) c (replay-IsValid older)

refcount-watch :
    (c id : String) (m : MembershipTracker)
    → refcount_of (get id (watch c m).channels)
      ≡ (if c == id then suc (refcount_of (get id m.channels)) else refcount_of (get id m.channels))
unfolding watch
refcount-watch c id m = elim (Option-cases (get c m.channels)) [
  | inl e ↦ rw (e, watch) (rw get-set (ground (arith, eq_iff c id)))
  | inr (s, e) ↦ rw (e, watch) (rw get-set (ground (arith, eq_iff c id)))
]

refcount-ingest :
    {C : Type 0} (c id : String) (ev : Event C) (m : MembershipTracker)
    → refcount_of (get id (ingest c ev m).channels) ≡ refcount_of (get id m.channels)
unfolding ingest
refcount-ingest c id ev m = elim (Option-cases (get c m.channels)) [
  | inl e ↦ rw (e, ingest)
  | inr (s, e) ↦
      rw (e, ingest) (rw get-set (ground (arith, eq_iff c id, refcount-ingest_state ev s)))
]

refcount-ready_timeout :
    (c id : String) (sub : ℕ) (m : MembershipTracker)
    → refcount_of (get id (ready_timeout c sub m).channels) ≡ refcount_of (get id m.channels)
unfolding ready_timeout
refcount-ready_timeout c id sub m = elim (Option-cases (get c m.channels)) [
  | inl e ↦ rw (e, ready_timeout)
  | inr (s, e) ↦
      rw (e, ready_timeout)
        (ground (arith, eq_iff c id, get-set c id (record s { ready = reject s.ready }) m.channels))
]

refcount-release :
    (c id : String) (m : MembershipTracker)
    → IsValid m
    → refcount_of (get id (release c m).channels)
      ≡ (if c == id then refcount_of (get id m.channels) - 1 else refcount_of (get id m.channels))
unfolding release
refcount-release c id m v = elim (Option-cases (get c m.channels)) [
  | inl e ↦ rw (e, release) (ground (arith, eq_iff c id))
  | inr (s, e) ↦ elim (Bool-cases (ltb 0 (s.refcount - 1))) [
    | inl more ↦ rw (e, release, more) (rw get-set (ground (arith, eq_iff c id)))
    | inr last ↦
        rw (e, release, last)
          (ground (
            arith,
            eq_iff c id,
            get-delete_ne c id m.channels,
            get-delete_self c m.channels v.nodup,
          ))
  ]
]

refcount-eq-holders :
    {C : Type 0} (id : String) (history : List (Call C))
    → refcount_of (get id (replay history).channels) ≡ holders id history
unfolding replay holders step get
refcount-eq-holders id [] = refl
refcount-eq-holders id (watches c ∷ older) =
    rw (refcount-watch c id (replay older), refcount-eq-holders id older)
refcount-eq-holders id (releases c ∷ older) =
    rw (refcount-release c id (replay older) (replay-IsValid older), refcount-eq-holders id older)
refcount-eq-holders id (arrives c ev ∷ older) =
    refcount-ingest c id ev (replay older) ∙ refcount-eq-holders id older
refcount-eq-holders id (times_out c sub ∷ older) =
    refcount-ready_timeout c id sub (replay older) ∙ refcount-eq-holders id older

-- After any history of watches, releases, events and timeouts the reference count of a channel is
-- the number of its holders, and the channel is not in the table exactly when it has none.
pub refcount-replay :
    {C : Type 0} (id : String) (history : List (Call C))
    → (refcount_of (get id (replay history).channels) ≡ holders id history)
      × ((get id (replay history).channels ≡ none) ↔ (holders id history ≡ 0))
refcount-replay id history =
    let e = refcount-eq-holders id history in
    let v = replay-IsValid history in
    elim (Option-cases (get id (replay history).channels)) [
      | inl n ↦ ground arith
      | inr (s, p) ↦ ground (arith, held-refcount id (replay history) s v p)
    ]
