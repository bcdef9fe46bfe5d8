-- ===== src/Engine.antt =====
-- src/mediasoup-server.ts: the routers of the channels and the workers that host them.
-- `getRouter` is cut at its `await`.
pub mod Rotation
pub mod Overlaps
use obelisk_sfu.Prelude.{
  ℕ, zero, suc, String, List, [], ◌∷◌, ◌++◌, Option, none, some, ◌+◌, ◌%◌, nat_eq, if◌then◌else◌,
}
use obelisk_sfu.Map.{Map, get, set, delete, values}

-- A router is its identity, and a worker its index.
pub record Entry : Type 0 where
  pub router : ℕ
  pub worker : ℕ

-- `InternalState`. `asked` has the workers that were asked for a router, the latest first, and
-- `live` the routers that are open; a call that waits for a router is in `waiting`.
pub record InternalState : Type 0 where
  pub workers : ℕ
  pub routers : Map Entry
  pub next_worker : ℕ
  pub asked : List ℕ
  pub waiting : List (String × ℕ)
  pub live : List ℕ
  pub next_router : ℕ

-- The engine when it has booted.
unfoldable pub booted : ℕ → InternalState
booted count = record {
  workers = count;
  routers = [];
  next_worker = 0;
  asked = [];
  waiting = [];
  live = [];
  next_router = 0;
}

unfoldable pub close_live : ℕ → List ℕ → List ℕ
close_live r [] = []
close_live r (x ∷ xs) = let rest = close_live r xs in if nat_eq x r then rest else x ∷ rest

unfoldable pub close_entries : List Entry → List ℕ → List ℕ
unfolding close_live
close_entries [] live = live
close_entries (e ∷ es) live = close_entries es (close_live e.router live)

-- `getRouter` up to its `await`: nothing more to do where the channel has a router.
unfoldable pub get_router_begin : String → InternalState → InternalState
get_router_begin channel_id s = elim (get channel_id s.routers) [
  | some existing ↦ s
  | none ↦ record s {
    next_worker = (s.next_worker + 1) % s.workers;
    asked = s.next_worker ∷ s.asked;
    waiting = s.waiting ++ (channel_id, s.next_worker) ∷ [];
  }
]

-- The call at a place among those that wait; the workers answer in any order.
abbrev pub at_place : ℕ → List (String × ℕ) → Option (String × ℕ)
at_place n [] = none
at_place zero (call ∷ calls) = some call
at_place (suc n) (call ∷ calls) = at_place n calls

abbrev pub without_place : ℕ → List (String × ℕ) → List (String × ℕ)
without_place n [] = []
without_place zero (call ∷ calls) = calls
without_place (suc n) (call ∷ calls) = call ∷ without_place n calls

-- The rest of it, for the call at a place.
unfoldable pub get_router_end : ℕ → InternalState → InternalState
get_router_end n s = elim (at_place n s.waiting) [
  | none ↦ s
  | some (channel_id, worker) ↦ record s {
    routers = set channel_id (record { router = s.next_router; worker = worker }) s.routers;
    waiting = without_place n s.waiting;
    live = s.next_router ∷ s.live;
    next_router = suc s.next_router;
  }
]

-- `createRouter` throws, for the call at a place.
unfoldable pub get_router_fails : ℕ → InternalState → InternalState
get_router_fails n s = record s { waiting = without_place n s.waiting }

-- `closeRouter`
unfoldable pub close_router : String → InternalState → InternalState
unfolding close_live
close_router channel_id s = elim (get channel_id s.routers) [
  | none ↦ s
  | some entry ↦ record s {
    routers = delete channel_id s.routers;
    live = close_live entry.router s.live;
  }
]

-- `worker.close()`, for each worker: a worker closes all the routers that it hosts.
abbrev close_workers : InternalState → InternalState
close_workers s = record s { live = [] }

-- `close`
unfoldable pub close : InternalState → InternalState
unfolding close_entries
close s = close_workers (record s { routers = []; live = close_entries (values s.routers) s.live })

-- What can happen to the engine.
pub data Call : Type 0 where
  gets closes : String → Call
  gets_created gets_failed : ℕ → Call
  closes_all : Call

unfoldable pub step : Call → InternalState → InternalState
unfolding get_router_begin get_router_end get_router_fails close_router close
step (gets channel_id) s = get_router_begin channel_id s
step (closes channel_id) s = close_router channel_id s
step (gets_created n) s = get_router_end n s
step (gets_failed n) s = get_router_fails n s
step closes_all s = close s

-- Calls one after another, the earliest first.
unfoldable pub run : List Call → InternalState → InternalState
unfolding step
run [] s = s
run (c ∷ cs) s = run cs (step c s)
