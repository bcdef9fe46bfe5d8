-- ===== src/Room/Events/Injected.antt =====
-- A test injection keeps the invariant, and puts nobody but its synthetic peer into the table.
use obelisk_sfu.Prelude.{
  ℕ, String, false, ◌≡◌, ◌==◌, ◌∙◌, refl, inl, inr, if-rule, Option-cases, Bool-cases,
}
use obelisk_sfu.Map.{get}
use obelisk_sfu.Map.Laws.{get-set_ne}
use obelisk_sfu.Room.{Room, peer_key}
use obelisk_sfu.Room.Roster.{new_peer, cancel_empty_timer}
use obelisk_sfu.Room.Lifetime.{is_closed}
use obelisk_sfu.Room.Injection.{
  synthetic_client_id, Injection, tracked, track_new, inject_test_producer,
}
use obelisk_sfu.Room.Invariant.{IsValid}
use obelisk_sfu.Room.Invariant.Leaving.{emit-IsValid}
use obelisk_sfu.Room.Invariant.Entering.{Keeps, update_peer-IsValid, new_peer-Enters}
use obelisk_sfu.Room.Events.Absence.{IsAbsent, update_peer-IsAbsent}

tracked-Keeps : (i : Injection) → Keeps (tracked i)
tracked-Keeps i = record { ref = λ p. refl; pubkey = λ p. refl; client_id = λ p. refl }

track_new-IsValid :
    (now : ℕ) (i : Injection) (r : Room)
    → is_closed r.status ≡ false
    → IsValid r
    → IsValid (track_new now i r)
unfolding track_new
track_new-IsValid now i r up v =
    let origin = i.meta.origin_pubkey in
    let entered = new_peer-Enters now origin synthetic_client_id r up v in
    emit-IsValid _ _ (
      update_peer-IsValid (tracked i) (new_peer r.next_ref now origin synthetic_client_id) _
        (tracked-Keeps i) entered.0)

pub inject_test_producer-IsValid :
    (now : ℕ) (i : Injection) (r : Room)
    → is_closed r.status ≡ false
    → IsValid r
    → IsValid (inject_test_producer now i r)
unfolding inject_test_producer
inject_test_producer-IsValid now i r up v =
    let announced = emit-IsValid _ r v in
    if-rule IsValid r.router _ _
      (λ ready.
        elim (Option-cases (get (peer_key i.meta.origin_pubkey synthetic_client_id) r.peers)) [
          | inl e ↦ rw e (track_new-IsValid now i _ up announced)
          | inr (p, e) ↦ rw e (update_peer-IsValid (tracked i) p _ (tracked-Keeps i) announced)
        ])
      (λ absent. v)

pub inject_test_producer-IsAbsent :
    (k : String) (now : ℕ) (i : Injection) (r : Room)
    → (peer_key i.meta.origin_pubkey synthetic_client_id == k) ≡ false
    → IsAbsent k r
    → IsAbsent k (inject_test_producer now i r)
unfolding inject_test_producer track_new cancel_empty_timer
inject_test_producer-IsAbsent k now i r apart h = elim (Bool-cases r.router) [
  | inr absent ↦ rw absent h
  | inl ready ↦
      let key = peer_key i.meta.origin_pubkey synthetic_client_id in
      elim (Option-cases (get key r.peers)) [
        | inl e ↦
            rw (ready, e)
              (update_peer-IsAbsent k (tracked i)
                (new_peer r.next_ref now i.meta.origin_pubkey synthetic_client_id) _
                (get-set_ne key k _ r.peers apart ∙ h))
        | inr (p, e) ↦ rw (ready, e) (update_peer-IsAbsent k (tracked i) p _ h)
      ]
]
