-- ===== src/Http/Inject.antt =====
-- src/http-server.ts: `handleTestInject`, for the mediasoup engine. Nobody is asked who they are.
use obelisk_sfu.Prelude.{
  ℕ, String, true, not, Option, none, some, ◌≡◌, ◌⊎◌, refl, inl, inr, value_or, if◌then◌else◌,
  Option-cases, Bool-cases,
}
use obelisk_sfu.Map.{get}
use obelisk_sfu.Texts.{is_hex, is_hex64}
use obelisk_sfu.Room.{VoiceKind, MediaKind}
use obelisk_sfu.Room.Injection.{Injection, inject_test_producer}
use obelisk_sfu.Rooms.{RoomManager, with_room}
use obelisk_sfu.Http.{InjectBody}

-- The ids that mediasoup gives to the producer and to its transport.
pub record MadeIds : Type 0 where
  pub producer : String
  pub transport : String

abbrev pub default_voice_kind : InjectBody → VoiceKind
default_voice_kind b = if b.is_video then VoiceKind.camera else VoiceKind.audio

-- What the room is asked for.
abbrev pub injection_of : MadeIds → InjectBody → Injection
injection_of ids b = record {
  meta = record {
    kind = value_or b.voice_kind (default_voice_kind b);
    origin_pubkey = value_or b.origin_pubkey "";
  };
  producer = record {
    id = ids.producer;
    kind = if b.is_video then MediaKind.video else MediaKind.audio;
  };
  transport_id = ids.transport;
}

-- The status of the response, and the rooms after it.
unfoldable pub handle_body : MadeIds → ℕ → InjectBody → RoomManager → ℕ × RoomManager
unfolding is_hex is_hex64 with_room inject_test_producer
handle_body ids now b m =
    let channel_id = value_or b.channel_id "" in
    if not (is_hex channel_id)
    then (400, m)
    else if not (is_hex64 (value_or b.origin_pubkey ""))
    then (400, m)
    else elim (get channel_id m.rooms) [
      | none ↦ (404, m)
      | some h ↦ (
        if h.room.router then 200 else 500,
        with_room channel_id (inject_test_producer now (injection_of ids b)) m,
      )
    ]

unfoldable pub handle_test_inject : MadeIds → ℕ → Option InjectBody → RoomManager → ℕ × RoomManager
unfolding handle_body
handle_test_inject ids now none m = (400, m)
handle_test_inject ids now (some b) m = handle_body ids now b m

-- The rooms are those before, but for the injection into the room of the channel that is named.
abbrev pub IsInjected : MadeIds → ℕ → Option InjectBody → RoomManager → RoomManager → Type 0
IsInjected ids now body m m' =
    (b : InjectBody) × (body ≡ some b)
    × (is_hex64 (value_or b.origin_pubkey "") ≡ true)
    × (m' ≡ with_room (value_or b.channel_id "") (inject_test_producer now (injection_of ids b)) m)

handle_body-cases :
    (ids : MadeIds) (now : ℕ) (b : InjectBody) (m : RoomManager)
    → ((handle_body ids now b m).1 ≡ m) ⊎ IsInjected ids now (some b) m (handle_body ids now b m).1
unfolding handle_body
handle_body-cases ids now b m =
    let channel_id = value_or b.channel_id "" in
    elim (Bool-cases (is_hex channel_id)) [
      | inr bad ↦ rw bad (inl refl)
      | inl good ↦ elim (Bool-cases (is_hex64 (value_or b.origin_pubkey ""))) [
        | inr bad ↦ rw (good, bad) (inl refl)
        | inl key ↦ elim (Option-cases (get channel_id m.rooms)) [
          | inl e ↦ rw (good, key, e) (inl refl)
          | inr (h, e) ↦ rw (good, key, e) (inr (b, refl, key, refl))
        ]
      ]
    ]

pub handle_test_inject-cases :
    (ids : MadeIds) (now : ℕ) (body : Option InjectBody) (m : RoomManager)
    → ((handle_test_inject ids now body m).1 ≡ m)
      ⊎ IsInjected ids now body m (handle_test_inject ids now body m).1
unfolding handle_test_inject
handle_test_inject-cases ids now none m = inl refl
handle_test_inject-cases ids now (some b) m = handle_body-cases ids now b m
