-- ===== src/Engine/Rotation.antt =====
-- The workers take turns.
use obelisk_sfu.Prelude.{
  ℕ, zero, suc, String, List, [], ◌∷◌, ◌≡◌, ◌<◌, ◌+◌, ◌%◌, ◌∙◌, refl, ap, arith, length, inl, inr,
  Option-cases,
}
use native.Mathlib.Nat.{mod-add-mod}
use obelisk_sfu.Map.{get}
use obelisk_sfu.Engine.{
  InternalState, booted, Call, gets, closes, gets_created, gets_failed, closes_all,
  get_router_begin, get_router_end, get_router_fails, close_router, close, at_place, step, run,
}

-- The turns of so many workers up to the `k`th, the latest first.
abbrev pub turns : ℕ → ℕ → List ℕ
turns n zero = []
turns n (suc k) = k % n ∷ turns n k

abbrev TakesTurns : ℕ → InternalState → Type 0
TakesTurns n s =
    (s.workers ≡ n) × (s.next_worker ≡ length s.asked % n) × (s.asked ≡ turns n (length s.asked))

mod_suc : (k n : ℕ) → (k % n + 1) % n ≡ suc k % n
mod_suc k n = mod-add-mod k n 1 ∙ ap (λ t. t % n) (omega arith)

zero_mod : (n : ℕ) → 0 < n → 0 ≡ 0 % n
zero_mod n pos = grind arith

get_router_begin-TakesTurns :
    (n : ℕ) (channel_id : String) (s : InternalState)
    → TakesTurns n s
    → TakesTurns n (get_router_begin channel_id s)
unfolding get_router_begin
get_router_begin-TakesTurns n channel_id s h = elim (Option-cases (get channel_id s.routers)) [
  | inr (e, q) ↦ rw (q, get_router_begin) h
  | inl q ↦
      rw (q, get_router_begin)
        (
          h.0,
          rw (h.0, h.1) (mod_suc (length s.asked) n),
          rw h.1 (ap (λ l. length s.asked % n ∷ l) h.2),
        )
]

step-TakesTurns : (n : ℕ) (c : Call) (s : InternalState) → TakesTurns n s → TakesTurns n (step c s)
unfolding step get_router_end get_router_fails close_router close
step-TakesTurns n (gets channel_id) s h = get_router_begin-TakesTurns n channel_id s h
step-TakesTurns n (gets_created i) s h = elim (Option-cases (at_place i s.waiting)) [
  | inl e ↦ rw (e, get_router_end) h
  | inr (call, e) ↦ rw (e, get_router_end) h
]
step-TakesTurns n (gets_failed i) s h = h
step-TakesTurns n (closes channel_id) s h = ground (arith, h)
step-TakesTurns n closes_all s h = h

run-TakesTurns :
    (n : ℕ) (cs : List Call) (s : InternalState) → TakesTurns n s → TakesTurns n (run cs s)
unfolding run
run-TakesTurns n [] s h = h
run-TakesTurns n (c ∷ cs) s h = run-TakesTurns n cs (step c s) (step-TakesTurns n c s h)

-- After any history of an engine with at least one worker, the workers were asked for routers in
-- turn, from the first one on and round again, whatever was closed or has failed meanwhile.
pub asked-run :
    (n : ℕ) (cs : List Call)
    → 0 < n
    → (run cs (booted n)).asked ≡ turns n (length (run cs (booted n)).asked)
unfolding booted
asked-run n cs pos = (run-TakesTurns n cs (booted n) (refl, zero_mod n pos, refl)).2
