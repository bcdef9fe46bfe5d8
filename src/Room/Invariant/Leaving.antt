-- ===== src/Room/Invariant/Leaving.antt =====
-- The ways out of a room keep the invariant.
use obelisk_sfu.Prelude.{
  ℕ, String, true, List, [], ◌∷◌, Option, ◌≡◌, refl, inl, inr, Option-cases, Bool-cases, keep,
  is_some,
}
use obelisk_sfu.Map.{get, delete, values}
use obelisk_sfu.Types.{RoomStatus}
use obelisk_sfu.Config.{Config}
use obelisk_sfu.Room.{
  notify, kicked, peer_left, fan_out, Room, PeerState, peer_key, key_of, Effect, emit,
}
use obelisk_sfu.Room.Roster.{
  is_active, is_empty, is_current, maybe_start_empty_timer, handle_peer_left, drop_stale_peer,
  kick_each, kick_begin, kick_end, kick, has_pubkey,
}
use obelisk_sfu.Room.Lifetime.{is_closed}
use obelisk_sfu.Room.Media.{leave}
use obelisk_sfu.Room.Invariant.{IsSettling, IsValid}
use obelisk_sfu.Room.Invariant.Tables.{delete-IsTable, is_empty-delete, eq-nil_of_delete}

pub active_closed : (s : RoomStatus) → is_active s ≡ true → is_closed s ≡ true → ⊥
active_closed RoomStatus.active a c = cc
active_closed RoomStatus.closed a c = cc
active_closed RoomStatus.starting a c = cc
active_closed RoomStatus.ending a c = cc

-- `maybeStartEmptyTimer` completes the invariant.
pub settle :
    (cfg : Config) (now : ℕ) (r : Room) → IsSettling r → IsValid (maybe_start_empty_timer cfg now r)
unfolding maybe_start_empty_timer
settle cfg now r s = elim (Bool-cases (is_active r.status)) [
  | inr idle ↦ rw idle (record { settling = s; armed = λ a _ _. cc })
  | inl act ↦ elim (Bool-cases (is_empty r.peers)) [
    | inr full ↦ rw (act, full) (record { settling = s; armed = λ _ e _. cc })
    | inl none_left ↦ elim (Bool-cases (is_some r.empty_timer)) [
      | inl on ↦ rw (act, none_left, on) (record { settling = s; armed = λ _ _ _. on })
      | inr idle ↦
          rw (act, none_left, idle)
            (record {
              settling = record {
                table = s.table;
                off = λ full. cc;
                shut = λ c. absurd (active_closed r.status act c);
              };
              armed = λ _ _ _. refl;
            })
    ]
  ]
]

-- Taking an entry away, whatever is sent.
pub delete-IsSettling :
    (k : String) (es : List Effect) (r : Room)
    → IsSettling r
    → IsSettling (emit es (record r { peers = delete k r.peers }))
delete-IsSettling k es r s = record {
  table = delete-IsTable k r.peers s.table;
  off = λ h. s.off (is_empty-delete k r.peers h);
  shut = λ c.
      let sh = s.shut c in
      record {
        peers = eq-nil_of_delete k r.peers sh.peers;
        empty_timer = sh.empty_timer;
        ends_at_timer = sh.ends_at_timer;
        beacon_timer = sh.beacon_timer;
        active_call_timer = sh.active_call_timer;
        reaper_timer = sh.reaper_timer;
      };
}

pub handle_peer_left-IsValid :
    (cfg : Config) (now : ℕ) (p : PeerState) (r : Room)
    → IsValid r
    → IsValid (handle_peer_left cfg now p r)
unfolding handle_peer_left
handle_peer_left-IsValid cfg now p r v = elim (Option-cases (get (key_of p) r.peers)) [
  | inl e ↦ rw (e, handle_peer_left) v
  | inr (q, e) ↦
      rw (e, handle_peer_left) (settle cfg now _ (delete-IsSettling (key_of p) _ r v.settling))
]

pub drop_stale_peer-IsValid :
    (cfg : Config) (now : ℕ) (p : PeerState) (r : Room)
    → IsValid r
    → IsValid (drop_stale_peer cfg now p r)
unfolding drop_stale_peer
drop_stale_peer-IsValid cfg now p r v = elim (Bool-cases (is_current p r.peers)) [
  | inl e ↦ rw e (settle cfg now _ (delete-IsSettling (key_of p) _ r v.settling))
  | inr e ↦ rw e v
]

kick_each-IsSettling : (ps : List PeerState) (r : Room) → IsSettling r → IsSettling (kick_each ps r)
unfolding kick_each
kick_each-IsSettling [] r s = s
kick_each-IsSettling (p ∷ ps) r s = kick_each-IsSettling ps _ (delete-IsSettling (key_of p) _ r s)

emit-IsSettling : (es : List Effect) (r : Room) → IsSettling r → IsSettling (emit es r)
emit-IsSettling es r s = record {
  table = s.table;
  off = s.off;
  shut = λ c.
      let sh = s.shut c in
      record {
        peers = sh.peers;
        empty_timer = sh.empty_timer;
        ends_at_timer = sh.ends_at_timer;
        beacon_timer = sh.beacon_timer;
        active_call_timer = sh.active_call_timer;
        reaper_timer = sh.reaper_timer;
      };
}

pub emit-IsValid : (es : List Effect) (r : Room) → IsValid r → IsValid (emit es r)
emit-IsValid es r v = record { settling = emit-IsSettling es r v.settling; armed = v.armed }

pub kick_begin-IsSettling :
    (target : String) (reason : Option String) (r : Room)
    → IsSettling r
    → IsSettling (kick_begin target reason r)
unfolding kick_begin
kick_begin-IsSettling target reason r s =
    emit-IsSettling (notify target (kicked reason) ∷ []) _
      (kick_each-IsSettling (keep (has_pubkey target) (values r.peers)) r s)

pub kick_end-IsValid :
    (cfg : Config) (now : ℕ) (target : String) (r : Room)
    → IsSettling r
    → IsValid (kick_end cfg now target r)
unfolding kick_end
kick_end-IsValid cfg now target r s =
    settle cfg now _ (emit-IsSettling (fan_out (peer_left target) (values r.peers)) r s)

pub kick-IsValid :
    (cfg : Config) (now : ℕ) (target : String) (reason : Option String) (r : Room)
    → IsValid r
    → IsValid (kick cfg now target reason r)
unfolding kick
kick-IsValid cfg now target reason r v =
    elim (Bool-cases (is_empty (keep (has_pubkey target) (values r.peers)))) [
      | inl nobody ↦ rw nobody v
      | inr found ↦ rw found (
          kick_end-IsValid cfg now target (kick_begin target reason r)
            (kick_begin-IsSettling target reason r v.settling))
    ]

pub leave-IsValid :
    (cfg : Config) (now : ℕ) (from client_id : String) (r : Room)
    → IsValid r
    → IsValid (leave cfg now from client_id r)
unfolding leave
leave-IsValid cfg now from client_id r v =
    elim (Option-cases (get (peer_key from client_id) r.peers)) [
      | inl e ↦ rw (e, leave) v
      | inr (p, e) ↦ rw (e, leave) (drop_stale_peer-IsValid cfg now p r v)
    ]
