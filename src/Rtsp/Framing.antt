-- ===== src/Rtsp/Framing.antt =====
-- rtp-transport-tcp.c, and the packets of rtp-media.c that go through it: `__alloc` and `__packet`.
use freak.Prelude.{
  ℕ, ◌*◌, ◌/◌, ◌%◌, Bool, false, List, [], ◌∷◌, ◌++◌, Option, some, ltb, length, if◌then◌else◌,
}
use freak.Proto.{◌>>=◌, ◌>>◌, check}

-- The fields `rtp` and `rtcp` of `rtp_tcp_transport_t`, and what a connection has taken.
pub record Tcp : Type 0 where
  pub rtp : ℕ
  pub rtcp : ℕ

-- `rtp_tcp_transport_new`: the channels come as `uint8_t`.
unfoldable pub tcp_new : ℕ → ℕ → Tcp
tcp_new rtp rtcp = record { rtp = rtp % 256; rtcp = rtcp % 256 }

-- The bytes that `rtp_tcp_transport_send` puts together: `$`, the channel, the size and the data.
unfoldable pub frame : Tcp → Bool → List ℕ → List ℕ
frame t rtcp bytes =
    36 ∷ (if rtcp then t.rtcp else t.rtp) ∷ length bytes / 256 % 256 ∷ length bytes % 256 ∷ bytes

-- What went out, and the packets that `rtp_onsend` was told of.
pub record Wire : Type 0 where
  pub written : List ℕ
  pub told : List (List ℕ)

-- What `rtsp_server_send_interleaved_data` returns: 0, a negative number or another one.
pub data Ret : Type 0 where
  zero_ret negative positive : Ret

-- For what went out before and a frame: what it returns, and what goes out then.
abbrev pub Connection : Type 0
Connection = List ℕ → List ℕ → Ret × List ℕ

abbrev pub wrote : Ret × List ℕ → Wire → Ret × Wire
wrote (ret, out) w = (ret, record w { written = w.written ++ out })

-- The end of `__packet`: `rtp_onsend`, if what the transport returned is not negative.
abbrev pub tell : List ℕ → Ret × Wire → Ret × Wire
tell bytes (zero_ret, w) = (zero_ret, record w { told = w.told ++ bytes ∷ [] })
tell bytes (negative, w) = (negative, w)
tell bytes (positive, w) = (positive, record w { told = w.told ++ bytes ∷ [] })

module _ (connection : Connection) where
  -- `rtp_tcp_transport_send`: the number of bytes, which is not negative, in place of a 0.
  unfoldable pub tcp_send : Tcp → Bool → List ℕ → Wire → Ret × Wire
  tcp_send t rtcp bytes w = wrote (connection w.written (frame t rtcp bytes)) w

  -- `__packet`, which the encoder calls with a packet that `__alloc` made room for. Its assertion is
  -- on the size.
  unfoldable pub send_packet : Tcp → List ℕ → Wire → Option (Ret × Wire)
  send_packet t bytes w =
      check (ltb (length bytes) (64 * 1024)) >> some (tell bytes (tcp_send t false bytes w))

  -- The packets of an encoder, whatever becomes of them.
  unfoldable pub send_packets : Tcp → List (List ℕ) → Wire → Option Wire
  send_packets t [] w = some w
  send_packets t (bytes ∷ ds) w = send_packet t bytes w >>= λ (ret, w'). send_packets t ds w'
