-- ===== src/Models/BmpPeer.antt =====
-- src/pybmpmon/models/bmp_peer.py: a router that reports to the service, and its events.
use pybmpmon.Base.{ℕ, Option, Bool}
use pybmpmon.Utils.Binary.{IpAddress}

pub record BmpPeer : Type 0 where
  pub peer_ip : IpAddress
  pub router_id : Option IpAddress
  pub first_seen : ℕ
  pub last_seen : ℕ
  pub is_active : Bool

-- The two texts that `event_type` takes.
pub data EventType : Type 0 where
  peer_up peer_down : EventType

pub record PeerEvent : Type 0 where
  pub time : ℕ
  pub peer_ip : IpAddress
  pub event_type : EventType
  pub reason_code : Option ℕ
