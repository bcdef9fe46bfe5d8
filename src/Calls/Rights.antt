-- ===== src/Calls/Rights.antt =====
-- Which rooms a control event can touch, and on whose behalf.
use obelisk_sfu.Prelude.{ℕ, String, false, some, ◌≡◌, ◌==◌, inl, inr, arith, ap}
use obelisk_sfu.Map.{Map, get}
use obelisk_sfu.Map.Laws.{get-set_ne}
use obelisk_sfu.Config.{Config}
use obelisk_sfu.Auth.{can_manage_room, is_trusted_author_relay}
use obelisk_sfu.Types.{SfuControlPayload}
use obelisk_sfu.Nostr.{Event, find_tag}
use obelisk_sfu.Channels.{ChannelRegistry}
use obelisk_sfu.Rooms.{RoomHandle, RoomManager}
use obelisk_sfu.Rooms.Bounds.{with_room-get_ne}
use obelisk_sfu.Calls.{is_authorized, handle}
use obelisk_sfu.Calls.Access.{Outcomes, handle-cases}

Outcomes-get_ne :
    (cfg : Config) (pubkey : String) (now : ℕ) (ev : Event SfuControlPayload) (source : String)
    (m m' : RoomManager) (id j : String)
    → find_tag "e" ev.tags ≡ some id
    → (id == j) ≡ false
    → Outcomes cfg pubkey now ev source m m'
    → get j m'.rooms ≡ get j m.rooms
Outcomes-get_ne cfg pubkey now ev source m m' id j e ne (inl same) = ap (λ n. get j n.rooms) same
Outcomes-get_ne cfg pubkey now ev source m m' id j e ne (inr (i, payload, f, inl (inl same))) =
    ap (λ n. get j n.rooms) same
Outcomes-get_ne cfg pubkey now ev source m m' id j e ne
      (inr (i, payload, f, inl (inr (may, (call, same))))) =
    let eq : i ≡ id = ground (arith, e, f) in rw same (with_room-get_ne i j call m (rw eq ne))
Outcomes-get_ne cfg pubkey now ev source m m' id j e ne
      (inr (i, payload, f, inr (may, absent, space, same))) =
    let eq : i ≡ id = ground (arith, e, f) in
    let apart : (i == j) ≡ false = rw eq ne in rw same (get-set_ne i j _ m.rooms apart)

-- A control event can touch only the room of the channel that its first `e` tag names.
pub handle-get_ne :
    (cfg : Config) (pubkey : String) (now : ℕ) (channels : ChannelRegistry)
    (ev : Event SfuControlPayload) (source : String) (s : Map ℕ × RoomManager) (id j : String)
    → find_tag "e" ev.tags ≡ some id
    → (id == j) ≡ false
    → get j (handle cfg pubkey now channels ev source s).1.rooms ≡ get j s.1.rooms
handle-get_ne cfg pubkey now channels ev source s id j e ne =
    Outcomes-get_ne cfg pubkey now ev source s.1 _ id j e ne
      (handle-cases cfg pubkey now channels ev source s)

Outcomes-no_right :
    (cfg : Config) (pubkey : String) (now : ℕ) (ev : Event SfuControlPayload) (source : String)
    (m m' : RoomManager)
    → is_authorized cfg pubkey now ev.pubkey (is_trusted_author_relay cfg source) ≡ false
    → ((id : String) (h : RoomHandle)
        → get id m.rooms ≡ some h
        → can_manage_room cfg pubkey ev.pubkey h.room.host_pubkey ≡ false)
    → Outcomes cfg pubkey now ev source m m'
    → m' ≡ m
Outcomes-no_right cfg pubkey now ev source m m' stranger manages (inl same) = same
Outcomes-no_right cfg pubkey now ev source m m' stranger manages
      (inr (i, payload, f, inl (inl same))) =
    same
Outcomes-no_right cfg pubkey now ev source m m' stranger manages
      (inr (i, payload, f, inl (inr ((h, e, may), call)))) =
    let may_not = manages i h e in absurd (ground (arith, may, may_not))
Outcomes-no_right cfg pubkey now ev source m m' stranger manages
      (inr (i, payload, f, inr (may, absent, space, same))) =
    absurd (ground (arith, may, stranger))

-- A control event of a sender who is not authorized to start a call, and is neither the host of
-- any room nor the operator, leaves all the rooms as they are, whatever its action.
pub handle-no_right :
    (cfg : Config) (pubkey : String) (now : ℕ) (channels : ChannelRegistry)
    (ev : Event SfuControlPayload) (source : String) (s : Map ℕ × RoomManager)
    → is_authorized cfg pubkey now ev.pubkey (is_trusted_author_relay cfg source) ≡ false
    → ((id : String) (h : RoomHandle)
        → get id s.1.rooms ≡ some h
        → can_manage_room cfg pubkey ev.pubkey h.room.host_pubkey ≡ false)
    → (handle cfg pubkey now channels ev source s).1 ≡ s.1
handle-no_right cfg pubkey now channels ev source s stranger manages =
    Outcomes-no_right cfg pubkey now ev source s.1 _ stranger manages
      (handle-cases cfg pubkey now channels ev source s)
