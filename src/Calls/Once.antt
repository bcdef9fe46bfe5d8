-- ===== src/Calls/Once.antt =====
-- The duplicate gate of the control events.
use obelisk_sfu.Prelude.{
  ℕ, String, true, List, [], ◌∷◌, none, some, ◌≡◌, ◌≤◌, ◌+◌, ◌/◌, refl, inl, inr, arith, eq_iff,
  Bool-cases, ltb, All,
}
use obelisk_sfu.Map.{Map, get, size}
use obelisk_sfu.Map.Laws.{get-set, get-set_self}
use obelisk_sfu.Config.{Config}
use obelisk_sfu.Types.{SfuControlPayload}
use obelisk_sfu.Nostr.{Event}
use obelisk_sfu.Channels.{ChannelRegistry}
use obelisk_sfu.Rooms.{RoomManager}
use obelisk_sfu.Calls.{drop_expired, gc_seen, remember_event, targets, handle}

-- One delivery: when, under which configuration and channel list, what, and from which relay.
pub record Delivery : Type 0 where
  pub now : ℕ
  pub cfg : Config
  pub channels : ChannelRegistry
  pub event : Event SfuControlPayload
  pub source : String

unfoldable pub deliver : String → Delivery → Map ℕ × RoomManager → Map ℕ × RoomManager
deliver pubkey d = handle d.cfg pubkey d.now d.channels d.event d.source

unfoldable pub deliver_all : String → List Delivery → Map ℕ × RoomManager → Map ℕ × RoomManager
unfolding deliver
deliver_all pubkey [] s = s
deliver_all pubkey (d ∷ ds) s = deliver_all pubkey ds (deliver pubkey d s)

get-drop_expired :
    (now : ℕ) (id : String) (exp : ℕ) (seen : Map ℕ)
    → get id seen ≡ some exp
    → now ≤ exp
    → get id (drop_expired now seen) ≡ some exp
unfolding get drop_expired
get-drop_expired now id exp [] h late = ground arith
get-drop_expired now id exp ((j, e) ∷ seen) h late =
    ground (arith, get-drop_expired now id exp seen)

get-gc_seen :
    (now : ℕ) (id : String) (exp : ℕ) (seen : Map ℕ)
    → get id seen ≡ some exp
    → now ≤ exp
    → get id (gc_seen now seen) ≡ some exp
unfolding gc_seen
get-gc_seen now id exp seen h late = elim (Bool-cases (ltb (size seen) 256)) [
  | inl few ↦ rw few h
  | inr many ↦ rw many (get-drop_expired now id exp seen h late)
]

get-drop_expired-none :
    (now : ℕ) (id : String) (seen : Map ℕ)
    → get id seen ≡ none
    → get id (drop_expired now seen) ≡ none
unfolding get drop_expired
get-drop_expired-none now id [] h = h
get-drop_expired-none now id ((j, e) ∷ seen) h = ground (arith, get-drop_expired-none now id seen)

get-gc_seen-none :
    (now : ℕ) (id : String) (seen : Map ℕ) → get id seen ≡ none → get id (gc_seen now seen) ≡ none
unfolding gc_seen
get-gc_seen-none now id seen h = elim (Bool-cases (ltb (size seen) 256)) [
  | inl few ↦ rw few h
  | inr many ↦ rw many (get-drop_expired-none now id seen h)
]

-- An id is kept until its time, whatever else is remembered.
get-remember_event :
    (now : ℕ) (id other : String) (exp : ℕ) (seen : Map ℕ)
    → get id seen ≡ some exp
    → now ≤ exp
    → get id (remember_event now other seen).1 ≡ some exp
unfolding remember_event
get-remember_event now id other exp seen h late =
    let kept = get-gc_seen now id exp seen h late in
    ground (arith, kept, eq_iff other id, get-set other id (now + 300) (gc_seen now seen))

deliver-seen :
    (pubkey id : String) (exp : ℕ) (d : Delivery) (s : Map ℕ × RoomManager)
    → get id s.0 ≡ some exp
    → d.now / 1000 ≤ exp
    → get id (deliver pubkey d s).0 ≡ some exp
unfolding deliver handle
deliver-seen pubkey id exp d (seen, m) h late = elim (Bool-cases (targets pubkey d.event.tags)) [
  | inr aside ↦ rw aside h
  | inl ours ↦ rw ours (get-remember_event (d.now / 1000) id d.event.id exp seen h late)
]

deliver_all-seen :
    (pubkey id : String) (exp : ℕ) (ds : List Delivery) (s : Map ℕ × RoomManager)
    → get id s.0 ≡ some exp
    → All (λ d. d.now / 1000 ≤ exp) ds
    → get id (deliver_all pubkey ds s).0 ≡ some exp
unfolding deliver_all
deliver_all-seen pubkey id exp [] s h late = h
deliver_all-seen pubkey id exp (d ∷ ds) s h late =
    deliver_all-seen pubkey id exp ds _ (deliver-seen pubkey id exp d s h late.0) late.1

deliver-duplicate :
    (pubkey : String) (exp : ℕ) (d : Delivery) (s : Map ℕ × RoomManager)
    → get d.event.id s.0 ≡ some exp
    → d.now / 1000 ≤ exp
    → (deliver pubkey d s).1 ≡ s.1
unfolding deliver handle remember_event
deliver-duplicate pubkey exp d (seen, m) h late =
    let kept = get-gc_seen (d.now / 1000) d.event.id exp seen h late in
    elim (Bool-cases (targets pubkey d.event.tags)) [
      | inr aside ↦ rw aside refl
      | inl ours ↦ rw (ours, kept) refl
    ]

deliver-new :
    (pubkey : String) (d : Delivery) (s : Map ℕ × RoomManager)
    → targets pubkey d.event.tags ≡ true
    → get d.event.id s.0 ≡ none
    → get d.event.id (deliver pubkey d s).0 ≡ some (d.now / 1000 + 300)
unfolding deliver handle remember_event
deliver-new pubkey d (seen, m) ours h =
    let kept = get-gc_seen-none (d.now / 1000) d.event.id seen h in
    rw (ours, kept) (get-set_self d.event.id (d.now / 1000 + 300) (gc_seen (d.now / 1000) seen))

-- An event that is addressed to the server and new to it is acted upon at most once within 300
-- seconds: after its first delivery and any deliveries in that time, from any relays and of any
-- events, a further delivery of the same id in that time leaves the rooms as they are.
pub at_most_once :
    (pubkey : String) (first again : Delivery) (between : List Delivery) (s : Map ℕ × RoomManager)
    → targets pubkey first.event.tags ≡ true
    → get first.event.id s.0 ≡ none
    → again.event.id ≡ first.event.id
    → All (λ d. d.now / 1000 ≤ first.now / 1000 + 300) between
    → again.now / 1000 ≤ first.now / 1000 + 300
    → let s' = deliver_all pubkey between (deliver pubkey first s) in
      (deliver pubkey again s').1 ≡ s'.1
at_most_once pubkey first again between s ours fresh same meanwhile soon =
    let exp = first.now / 1000 + 300 in
    let seen =
      deliver_all-seen pubkey first.event.id exp between (deliver pubkey first s)
        (deliver-new pubkey first s ours fresh) meanwhile in
    deliver-duplicate pubkey exp again _ (rw same seen) soon
