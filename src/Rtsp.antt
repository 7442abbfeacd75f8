-- ===== src/Rtsp.antt =====
-- The RTSP server: mod/rtsp/src/rtsp. What a session holds (rtp_media_priv_t, rtp_media_track_t of
-- rtp-media.c, rtsp_server_media_t and rtsp_server_priv_t of rtsp-server.c). Media has rtp-media.c,
-- Server rtsp-server.c, Framing the framing of rtp-transport-tcp.c and Sender the sending thread.
pub mod Media
pub mod Server
pub mod Framing
pub mod Sender
mod Reader
mod Ending
mod Owned
mod Requests
mod Ownership
mod Runs
mod Setup
mod Phases
mod Sessions
mod Machine
mod Channels
mod Tests
use freak.Prelude.{ℕ, List, Option}

-- A transport: its object and, for TCP, the channels of `rtp_tcp_transport_t`.
pub data Kind : Type 0 where
  tcp : ℕ → ℕ → Kind
  udp : Kind

pub record Transport : Type 0 where
  pub object : ℕ
  pub kind : Kind

-- `rtp_media_track_t`
pub record Track : Type 0 where
  pub rtp : Option ℕ
  pub packer : Option ℕ
  pub fifo : Option ℕ
  pub transport : Option Transport

-- `MEDIA_STATUS_…`
pub data Status : Type 0 where
  setup play pause exit : Status

-- `rtp_media_priv_t`; `object` is its memory. The other two tracks have nothing but a transport.
pub record Session : Type 0 where
  pub object : ℕ
  pub path : List ℕ
  pub status : Status
  pub video : Track
  pub audio : Track
  pub meta : Track

-- `rtsp_server_media_t`: its memory, the number that stands for the text of `key`, and its media.
pub record Entry : Type 0 where
  pub object : ℕ
  pub key : ℕ
  pub media : Session
