-- ===== src/Room/Invariant/Closing.antt =====
-- Closing, starting and the timers keep the invariant.
use obelisk_sfu.Prelude.{
  ℕ, String, true, false, List, [], ◌∷◌, Option, none, some, ◌≡◌, ◌&&◌, ◌+◌, ◌*◌, ◌-◌, ◌/◌, refl,
  inl, inr, arith, Option-cases, Bool-cases, leb,
}
use obelisk_sfu.Map.{Map, get, delete, values}
use obelisk_sfu.Types.{RoomRules, closed}
use obelisk_sfu.Config.{Config}
use obelisk_sfu.Room.{Room, PeerState, new_room, key_of, Effect, emit, publish_active, close_router}
use obelisk_sfu.Room.Roster.{
  is_active, is_empty, is_current, close_peer_media, maybe_start_empty_timer, handle_peer_left,
}
use obelisk_sfu.Room.Lifetime.{
  is_closed, stripped, has_transport, close_peer_in_table, close_peers, close_begin, close_end,
  close, arm_ends_at, schedule_ends_at, update_rules, opened, start_end, empty_timer_fires,
}
use obelisk_sfu.Room.Invariant.{IsValid}
use obelisk_sfu.Room.Invariant.Leaving.{active_closed}

-- A room that has begun to close.
pub record IsStopped (r : Room) : Type 0 where
  pub status : r.status ≡ closed
  pub empty_timer : r.empty_timer ≡ none
  pub ends_at_timer : r.ends_at_timer ≡ none
  pub beacon_timer : r.beacon_timer ≡ false
  pub active_call_timer : r.active_call_timer ≡ false
  pub reaper_timer : r.reaper_timer ≡ false

peers-IsStopped :
    (m : Map PeerState) (es : List Effect) (r : Room)
    → IsStopped r
    → IsStopped (emit es (record r { peers = m }))
peers-IsStopped m es r s = record {
  status = s.status;
  empty_timer = s.empty_timer;
  ends_at_timer = s.ends_at_timer;
  beacon_timer = s.beacon_timer;
  active_call_timer = s.active_call_timer;
  reaper_timer = s.reaper_timer;
}

idle-IsStopped :
    (cfg : Config) (now : ℕ) (r : Room)
    → IsStopped r
    → IsStopped (maybe_start_empty_timer cfg now r)
unfolding maybe_start_empty_timer
idle-IsStopped cfg now r s = let idle : is_active r.status ≡ false = rw s.status refl in rw idle s

handle_peer_left-IsStopped :
    (cfg : Config) (now : ℕ) (p : PeerState) (r : Room)
    → IsStopped r
    → IsStopped (handle_peer_left cfg now p r)
unfolding handle_peer_left
handle_peer_left-IsStopped cfg now p r s = elim (Option-cases (get (key_of p) r.peers)) [
  | inl e ↦ rw (e, handle_peer_left) s
  | inr (q, e) ↦
      rw (e, handle_peer_left)
        (idle-IsStopped cfg now _ (peers-IsStopped (delete (key_of p) r.peers) _ r s))
]

close_peers-IsStopped :
    (cfg : Config) (now : ℕ) (ps : List PeerState) (r : Room)
    → IsStopped r
    → IsStopped (close_peers cfg now ps r)
unfolding close_peers close_peer_in_table
close_peers-IsStopped cfg now [] r s = s
close_peers-IsStopped cfg now (p ∷ ps) r s =
    let sent = peers-IsStopped r.peers (close_peer_media p) r s in
    close_peers-IsStopped cfg now ps _
      (elim (Bool-cases (has_transport p && is_current p r.peers)) [
        | inl last ↦ rw last (handle_peer_left-IsStopped cfg now (stripped p) _ sent)
        | inr other ↦ rw other sent
      ])

stopped-IsValid :
    (es : List Effect) (r : Room) → IsStopped r → IsValid (emit es (record r { peers = [] }))
stopped-IsValid es r s = record {
  settling = record {
    table = record { nodup = tt; keyed = tt };
    off = λ h. cc;
    shut = λ _. record {
      peers = refl;
      empty_timer = s.empty_timer;
      ends_at_timer = s.ends_at_timer;
      beacon_timer = s.beacon_timer;
      active_call_timer = s.active_call_timer;
      reaper_timer = s.reaper_timer;
    };
  };
  armed = λ a _ _. absurd (active_closed r.status a (rw s.status refl));
}

pub close_begin-IsStopped : (cfg : Config) (now : ℕ) (r : Room) → IsStopped (close_begin cfg now r)
unfolding close_begin
close_begin-IsStopped cfg now r = peers-IsStopped [] (close_router ∷ []) _ (
    close_peers-IsStopped cfg now (values r.peers) _ (record {
      status = refl;
      empty_timer = refl;
      ends_at_timer = refl;
      beacon_timer = refl;
      active_call_timer = refl;
      reaper_timer = refl;
    }))

pub close_begin-IsValid : (cfg : Config) (now : ℕ) (r : Room) → IsValid (close_begin cfg now r)
unfolding close_begin
close_begin-IsValid cfg now r = stopped-IsValid (close_router ∷ []) _ (
    close_peers-IsStopped cfg now (values r.peers) _ (record {
      status = refl;
      empty_timer = refl;
      ends_at_timer = refl;
      beacon_timer = refl;
      active_call_timer = refl;
      reaper_timer = refl;
    }))

close_end-IsValid : (r : Room) → IsValid r → IsValid (close_end r)
unfolding close_end publish_active
close_end-IsValid r v = record {
  settling = record {
    table = v.settling.table;
    off = v.settling.off;
    shut = λ c.
        let sh = v.settling.shut c in
        record {
          peers = sh.peers;
          empty_timer = sh.empty_timer;
          ends_at_timer = sh.ends_at_timer;
          beacon_timer = sh.beacon_timer;
          active_call_timer = sh.active_call_timer;
          reaper_timer = sh.reaper_timer;
        };
  };
  armed = v.armed;
}

pub close-IsValid : (cfg : Config) (now : ℕ) (r : Room) → IsValid r → IsValid (close cfg now r)
unfolding close
close-IsValid cfg now r v = elim (Bool-cases (is_closed r.status)) [
  | inl c ↦ rw c v
  | inr o ↦ rw o (close_end-IsValid (close_begin cfg now r) (close_begin-IsValid cfg now r))
]

-- Closing an open room needs no condition.
close_open-IsValid :
    (cfg : Config) (now : ℕ) (r : Room) → is_closed r.status ≡ false → IsValid (close cfg now r)
unfolding close
close_open-IsValid cfg now r o =
    rw o (close_end-IsValid (close_begin cfg now r) (close_begin-IsValid cfg now r))

last_open :
    (r : Room) → (is_empty r.peers && is_active r.status) ≡ true → is_closed r.status ≡ false
last_open r over = elim (Bool-cases (is_closed r.status)) [
  | inl c ↦ absurd (active_closed r.status (ground arith) c)
  | inr o ↦ o
]

-- The end-of-call timer may be written in a room that is not closed.
ends_at-IsValid :
    (t : Option ℕ) (rules : RoomRules) (r : Room)
    → ((is_closed r.status ≡ true) → t ≡ none)
    → IsValid r
    → IsValid (record r { ends_at_timer = t; rules = rules })
ends_at-IsValid t rules r h v = record {
  settling = record {
    table = v.settling.table;
    off = v.settling.off;
    shut = λ c.
        let sh = v.settling.shut c in
        record {
          peers = sh.peers;
          empty_timer = sh.empty_timer;
          ends_at_timer = h c;
          beacon_timer = sh.beacon_timer;
          active_call_timer = sh.active_call_timer;
          reaper_timer = sh.reaper_timer;
        };
  };
  armed = v.armed;
}

arm_ends_at-IsValid :
    (cfg : Config) (now : ℕ) (t : Option ℕ) (r : Room)
    → is_active r.status ≡ true
    → IsValid r
    → IsValid (arm_ends_at cfg now t r)
unfolding arm_ends_at
arm_ends_at-IsValid cfg now none r act v = v
arm_ends_at-IsValid cfg now (some t) r act v = elim (Bool-cases (leb t (now / 1000))) [
  | inl past ↦ rw past (close-IsValid cfg now r v)
  | inr later ↦ rw later (
      ends_at-IsValid (some (now + (t - now / 1000) * 1000)) r.rules r
        (λ c. absurd (active_closed r.status act c)) v)
]

pub schedule_ends_at-IsValid :
    (cfg : Config) (now : ℕ) (r : Room) → IsValid r → IsValid (schedule_ends_at cfg now r)
unfolding schedule_ends_at
schedule_ends_at-IsValid cfg now r v =
    let cleared = ends_at-IsValid none r.rules r (λ _. refl) v in
    elim (Bool-cases (is_active r.status)) [
      | inr idle ↦ rw idle cleared
      | inl act ↦ rw act (arm_ends_at-IsValid cfg now _ _ act cleared)
    ]

pub update_rules-IsValid :
    (cfg : Config) (now : ℕ) (rules : RoomRules) (r : Room)
    → IsValid r
    → IsValid (update_rules cfg now rules r)
unfolding update_rules
update_rules-IsValid cfg now rules r v =
    schedule_ends_at-IsValid cfg now (record r { rules = rules })
      (ends_at-IsValid r.ends_at_timer rules r (λ c. (v.settling.shut c).ends_at_timer) v)

pub empty_timer_fires-IsValid :
    (cfg : Config) (now : ℕ) (r : Room) → IsValid r → IsValid (empty_timer_fires cfg now r)
unfolding empty_timer_fires
empty_timer_fires-IsValid cfg now r v = elim (Bool-cases (is_empty r.peers && is_active r.status)) [
  | inl over ↦
      rw over (close_open-IsValid cfg now (record r { empty_timer = none }) (last_open r over))
  | inr on ↦ rw on (record {
    settling = record {
      table = v.settling.table;
      off = λ _. refl;
      shut = λ c.
          let sh = v.settling.shut c in
          record {
            peers = sh.peers;
            empty_timer = refl;
            ends_at_timer = sh.ends_at_timer;
            beacon_timer = sh.beacon_timer;
            active_call_timer = sh.active_call_timer;
            reaper_timer = sh.reaper_timer;
          };
    };
    armed = λ a e n. ground arith;
  })
]

opened-IsValid :
    (now : ℕ) (r : Room)
    → r.peers ≡ []
    → r.empty_timer ≡ none
    → r.next_ref ≡ 0
    → IsValid (opened now r)
unfolding opened
opened-IsValid now r nobody off fresh = record {
  settling = record {
    table = rw nobody (record { nodup = tt; keyed = tt });
    off = λ _. off;
    shut = λ c. cc;
  };
  armed = λ a e n. absurd (omega (arith, n, fresh));
}

-- A room that has been made and started satisfies the invariant.
pub start_end-IsValid :
    (cfg : Config) (now : ℕ) (channel_id host_pubkey : String) (rules : RoomRules)
    → IsValid (start_end cfg now (new_room channel_id host_pubkey rules))
unfolding start_end
start_end-IsValid cfg now channel_id host_pubkey rules =
    let r = new_room channel_id host_pubkey rules in
    schedule_ends_at-IsValid cfg now (opened now r)
      (unfold new_room in opened-IsValid now r refl refl refl)
