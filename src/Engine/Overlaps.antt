-- ===== src/Engine/Overlaps.antt =====
-- Two calls of `getRouter` for one channel that overlap.
use obelisk_sfu.Prelude.{
  ℕ, suc, String, Bool, true, false, List, [], ◌∷◌, ◌++◌, none, some, ◌≡◌, ◌==◌, ◌<◌, ◌+◌, ◌%◌,
  refl, arith, any, nat_eq, ap, ◌∙◌, inl, inr, Option-cases, Bool-cases, eq_refl,
}
use obelisk_sfu.Map.{Map, get, set, delete}
use obelisk_sfu.Map.Laws.{get-set_self}
use obelisk_sfu.Map.Values.{Each, Each-set, Each-delete, Each-get, Each-mono}
use obelisk_sfu.Engine.{
  Entry, InternalState, Call, gets, closes, gets_created, gets_failed, closes_all, get_router_begin,
  get_router_end, get_router_fails, close_router, close_live, at_place, step, run,
}

abbrev pub is_live : ℕ → InternalState → Bool
is_live r s = any (λ x. nat_eq x r) s.live

-- The second call begins before the first one has its router; then the channel's router is closed.
abbrev pub overlapping : String → List Call
overlapping channel_id =
    gets channel_id ∷ gets channel_id ∷ gets_created 0 ∷ gets_created 0 ∷ closes channel_id ∷ []

abbrev begun : String → InternalState → InternalState
begun channel_id s = record s {
  next_worker = (s.next_worker + 1) % s.workers;
  asked = s.next_worker ∷ s.asked;
  waiting = s.waiting ++ (channel_id, s.next_worker) ∷ [];
}

get_router_begin-none :
    (channel_id : String) (s : InternalState)
    → get channel_id s.routers ≡ none
    → get_router_begin channel_id s ≡ begun channel_id s
unfolding get_router_begin
get_router_begin-none channel_id s e = rw (e, get_router_begin) refl

close_live-other :
    (a r : ℕ) (xs : List ℕ)
    → nat_eq a r ≡ false
    → any (λ x. nat_eq x a) xs ≡ true
    → any (λ x. nat_eq x a) (close_live r xs) ≡ true
unfolding close_live
close_live-other a r [] e h = h
close_live-other a r (x ∷ xs) e h = ground (arith, e, h, close_live-other a r xs e)

close_router-some :
    (channel_id : String) (entry : Entry) (s : InternalState)
    → get channel_id s.routers ≡ some entry
    → close_router channel_id s
      ≡ record s { routers = delete channel_id s.routers; live = close_live entry.router s.live }
unfolding close_router
close_router-some channel_id entry s e = rw (e, close_router) refl

abbrev idle : InternalState → InternalState
idle s = record s { waiting = [] }

abbrev both : String → InternalState → InternalState
both channel_id s =
    get_router_end 0 (get_router_end 0 (begun channel_id (begun channel_id (idle s))))

run-overlapping :
    (channel_id : String) (s : InternalState)
    → get channel_id s.routers ≡ none
    → run (overlapping channel_id) (idle s) ≡ close_router channel_id (both channel_id s)
unfolding run step
run-overlapping channel_id s e =
    ap (λ t. close_router channel_id (get_router_end 0 (get_router_end 0 t)))
      (ap (get_router_begin channel_id) (get_router_begin-none channel_id (idle s) e)
        ∙ get_router_begin-none channel_id (begun channel_id (idle s)) e)

-- A router that is open and that no entry of the table has; routers are numbered up to the next.
record IsLost (r : ℕ) (s : InternalState) : Type 0 where
  live : is_live r s ≡ true
  numbered : r < s.next_router
  unlisted : Each (λ k e. nat_eq e.router r ≡ false) s.routers

set_twice : (k : String) (v w : Entry) (m : Map Entry) → set k v (set k w m) ≡ set k v m
unfolding set
set_twice k v w [] = ground (arith, eq_refl k)
set_twice k v w ((j, x) ∷ m) = elim (Bool-cases (j == k)) [
  | inl same ↦ rw same (rw same refl)
  | inr apart ↦ rw apart (rw apart (ap (λ t. (j, x) ∷ t) (set_twice k v w m)))
]

-- Every router of the table was numbered before the next one.
abbrev pub IsNumbered : InternalState → Type 0
IsNumbered s = Each (λ k e. e.router < s.next_router) s.routers

both-IsLost :
    (channel_id : String) (s : InternalState)
    → IsNumbered s
    → IsLost s.next_router (close_router channel_id (both channel_id s))
unfolding get_router_end
both-IsLost channel_id s h =
    let n = s.next_router in
    let Other : String → Entry → Type 0 = λ k e. nat_eq e.router n ≡ false in
    let second : Entry = record { router = suc n; worker = (s.next_worker + 1) % s.workers } in
    let made : Entry = record { router = n; worker = s.next_worker } in
    let first = set channel_id made s.routers in
    let old = Each-mono (λ k e. e.router < n) Other s.routers (λ k e q. ground (arith, q)) h in
    let listed = Each-set Other channel_id second s.routers (ground arith) old in
    let closed =
      close_router-some channel_id second (both channel_id s)
        (get-set_self channel_id second first) in
    rw closed (record {
      live = close_live-other n (suc n) (suc n ∷ n ∷ s.live) (ground arith) (ground arith);
      numbered = omega arith;
      unlisted =
          Each-delete Other channel_id (set channel_id second first)
            (rw (set_twice channel_id second made s.routers) listed);
    })

-- The whole engine does not close.
abbrev pub GoesOn : List Call → Type 0
GoesOn [] = Unit {0}
GoesOn (closes_all ∷ cs) = ⊥
GoesOn (gets id ∷ cs) = GoesOn cs
GoesOn (closes id ∷ cs) = GoesOn cs
GoesOn (gets_created n ∷ cs) = GoesOn cs
GoesOn (gets_failed n ∷ cs) = GoesOn cs

module _ (r : ℕ) where
  gets-IsLost : (id : String) (s : InternalState) → IsLost r s → IsLost r (get_router_begin id s)
  unfolding get_router_begin
  gets-IsLost id s h = elim (Option-cases (get id s.routers)) [
    | inr (e, q) ↦ rw (q, get_router_begin) h
    | inl q ↦
        rw (get_router_begin-none id s q)
          (record { live = h.live; numbered = h.numbered; unlisted = h.unlisted })
  ]

  created-IsLost : (n : ℕ) (s : InternalState) → IsLost r s → IsLost r (get_router_end n s)
  unfolding get_router_end
  created-IsLost n s h = elim (Option-cases (at_place n s.waiting)) [
    | inl e ↦ rw (e, get_router_end) h
    | inr ((id, worker), e) ↦
        rw (e, get_router_end)
          (record {
            live = ground (arith, h.live);
            numbered = omega (arith, h.numbered);
            unlisted =
                Each-set (λ k x. nat_eq x.router r ≡ false) id
                  (record { router = s.next_router; worker = worker }) s.routers
                  (ground (arith, h.numbered)) h.unlisted;
          })
  ]

  closes-IsLost : (id : String) (s : InternalState) → IsLost r s → IsLost r (close_router id s)
  unfolding close_router
  closes-IsLost id s h = elim (Option-cases (get id s.routers)) [
    | inl e ↦ rw (e, close_router) h
    | inr (entry, e) ↦
        let other = Each-get (λ k x. nat_eq x.router r ≡ false) id entry s.routers h.unlisted e in
        rw (close_router-some id entry s e) (record {
          live = close_live-other r entry.router s.live (ground (arith, other)) h.live;
          numbered = h.numbered;
          unlisted = Each-delete (λ k x. nat_eq x.router r ≡ false) id s.routers h.unlisted;
        })
  ]

  run-IsLost : (cs : List Call) (s : InternalState) → GoesOn cs → IsLost r s → IsLost r (run cs s)
  unfolding run step get_router_fails
  run-IsLost [] s on h = h
  run-IsLost (gets id ∷ cs) s on h = run-IsLost cs _ on (gets-IsLost id s h)
  run-IsLost (closes id ∷ cs) s on h = run-IsLost cs _ on (closes-IsLost id s h)
  run-IsLost (gets_created n ∷ cs) s on h = run-IsLost cs _ on (created-IsLost n s h)
  run-IsLost (gets_failed n ∷ cs) s on h =
      run-IsLost cs _ on (record { live = h.live; numbered = h.numbered; unlisted = h.unlisted })
  run-IsLost (closes_all ∷ cs) s on h = absurd on

-- Where a channel has no router and no call waits: of two overlapping calls for the channel each
-- makes a router, and the first of the two stays open through the close of the channel's router
-- and whatever calls follow, until the engine as a whole closes. The routers of the table were
-- numbered before.
pub is_live-overlapping :
    (channel_id : String) (cs : List Call) (s : InternalState)
    → get channel_id s.routers ≡ none
    → s.waiting ≡ []
    → IsNumbered s
    → GoesOn cs
    → is_live s.next_router (run cs (run (overlapping channel_id) s)) ≡ true
is_live-overlapping channel_id cs s e w h on =
    let same : s ≡ idle s = ap (λ l. record s { waiting = l }) w in
    let reached = ap (run (overlapping channel_id)) same ∙ run-overlapping channel_id s e in
    (run-IsLost s.next_router cs (run (overlapping channel_id) s) on
      (rw reached (both-IsLost channel_id s h))).live
