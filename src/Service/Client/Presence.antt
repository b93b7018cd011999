-- ===== src/Service/Client/Presence.antt =====
-- src/service/service.cpp: PollPresenceLocked and LiveServerLocked, on the heartbeats that the
-- presence reader gives until it has no more.
use puppet_master.Base.{
  ℕ, ◌-◌, ◌/◌, String, ◌<>◌, List, [], ◌∷◌, length, Bool, true, false, ◌&&◌, ◌||◌, not, ◌==◌,
  if◌then◌else◌, drop, to_decimal,
}
use puppet_master.Base.Int.{ℤ, pos, ◌+ℤ◌, ltb_ℤ}
use puppet_master.Core.Status.{error, unavailable}
use puppet_master.Core.Result.{Result, value, from_status}
use puppet_master.Transport.Recording.Bytes.{get_u64}
use puppet_master.Service.Spec.{ServiceSpec, describe}

abbrev pub presence_size : ℕ
presence_size = 16

abbrev pub offline_sequence : ℕ
offline_sequence = 0

-- The newest heartbeat seen.
pub record Presence : Type 0 where
  pub server_instance : ℕ
  pub server_withdrew : Bool
  pub heartbeat_sequence : ℕ
  pub heartbeat_at : ℕ

abbrev pub nothing_seen : Presence
nothing_seen = record {
  server_instance = 0;
  server_withdrew = false;
  heartbeat_sequence = 0;
  heartbeat_at = 0;
}

-- A goodbye, which only the current server can say.
unfoldable pub withdraw : ℕ → Presence → Presence
withdraw instance_id p =
    if instance_id == p.server_instance
    then record {
      server_instance = 0;
      server_withdrew = true;
      heartbeat_sequence = 0;
      heartbeat_at = 0;
    }
    else p

-- One round of the loop of `PollPresenceLocked`.
unfoldable pub see : List ℕ → ℕ → Presence → Presence
see payload now p =
    let instance_id = get_u64 payload in
    let sequence = get_u64 (drop 8 payload) in
    if not (length payload == presence_size)
    then p
    else if instance_id == p.server_instance && sequence == p.heartbeat_sequence
    then p
    else if sequence == offline_sequence
    then withdraw instance_id p
    else record {
      server_instance = instance_id;
      server_withdrew = false;
      heartbeat_sequence = sequence;
      heartbeat_at = now;
    }

-- `PollPresenceLocked`: each heartbeat with the time at which it is taken.
unfoldable pub poll_presence : List (List ℕ × ℕ) → Presence → Presence
poll_presence [] p = p
poll_presence ((payload, now) ∷ heartbeats) p = poll_presence heartbeats (see payload now p)

unfoldable pub liveness : ServiceSpec → ℤ
liveness spec = spec.heartbeat_interval +ℤ spec.heartbeat_interval +ℤ spec.heartbeat_interval

unfoldable pub gone_reason : Presence → ℕ → String
gone_reason p age =
    if p.server_withdrew
    then " (the server stopped)"
    else if not (p.server_instance == 0)
    then " (last heartbeat " <> to_decimal (age / 1000000) <> " ms ago)"
    else ""

pub record ServerInfo : Type 0 where
  pub instance_id : ℕ
  pub age : ℕ

-- `LiveServerLocked`, behind its poll.
unfoldable pub live_server : ServiceSpec → ℕ → Presence → Result ServerInfo
live_server spec now p =
    let age = now - p.heartbeat_at in
    if p.server_instance == 0 || ltb_ℤ (liveness spec) (pos age)
    then from_status
        (error unavailable (describe spec <> " has no live server" <> gone_reason p age))
    else value (record { instance_id = p.server_instance; age = age })
