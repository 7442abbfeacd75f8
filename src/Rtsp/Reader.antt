-- ===== src/Rtsp/Reader.antt =====
-- A client that takes the interleaved data of RFC 2326, 10.12 from a connection.
use freak.Prelude.{
  ◌⊎◌, ℕ, zero, suc, ◌+◌, ◌*◌, ◌/◌, ◌%◌, ◌≡◌, ◌≤◌, ◌<◌, refl, ◌∙◌, Bool, true, false, ◌&&◌, &&-true,
  inl, inr, List, [], ◌∷◌, ◌++◌, Option, some, none, ltb, lt→ltb, ◌==◌, length, map, take, drop,
  take-append, drop-append, length-append, append_assoc, append-nil, if◌then◌else◌, arith,
}
use freak.Proto.{◌>>=◌}
use freak.Rtsp.Framing.{
  Tcp, tcp_new, frame, Wire, tcp_send, send_packet, send_packets, Connection, Ret, zero_ret,
  negative,
}

-- The frames of a stream of bytes, each with its channel; `none` if it is no sequence of whole frames.
-- Each frame has a byte at least, so the length of the stream is enough fuel.
abbrev pub read_frames : ℕ → List ℕ → Option (List (ℕ × List ℕ))
read_frames fuel [] = some []
read_frames zero (x ∷ xs) = none
read_frames (suc n) (m ∷ channel ∷ hi ∷ lo ∷ rest) =
    let size : ℕ = hi * 256 + lo in
    let next = read_frames n (drop size rest) in
    if m == 36
    then (if ltb (length rest) size
        then none
        else (next >>= λ fs. some ((channel, take size rest) ∷ fs)))
    else none
read_frames (suc n) _ = none

read_frames-frame :
    (fuel : ℕ) (t : Tcp) (bytes rest : List ℕ)
    → length bytes < 64 * 1024
    → read_frames (suc fuel) (frame t false bytes ++ rest)
      ≡ (read_frames fuel rest >>= λ fs. some ((t.rtp, bytes) ∷ fs))
unfolding frame
read_frames-frame fuel t bytes rest h =
    let size : length bytes / 256 % 256 * 256 + length bytes % 256 ≡ length bytes = omega arith in
    let short : ltb (length (bytes ++ rest)) (length bytes) ≡ false =
      ground (arith, length-append bytes rest) in
    simp (
      size,
      short,
      take-append (length bytes) bytes rest refl,
      drop-append (length bytes) bytes rest refl,
    )

-- The frames of some packets.
stream : Tcp → List (List ℕ) → List ℕ
stream t [] = []
stream t (p ∷ ps) = frame t false p ++ stream t ps

-- Packets that fit the 16-bit size.
abbrev pub small : List (List ℕ) → Bool
small [] = true
small (p ∷ ps) = ltb (length p) (64 * 1024) && small ps

stream-append :
    (t : Tcp) (ps : List (List ℕ)) (p : List ℕ)
    → stream t (ps ++ p ∷ []) ≡ stream t ps ++ frame t false p
unfolding stream
stream-append t [] p = append-nil (frame t false p)
stream-append t (x ∷ ps) p = simp (stream-append t ps p, append_assoc)

small-append :
    (ps : List (List ℕ)) (p : List ℕ)
    → small ps ≡ true
    → length p < 64 * 1024
    → small (ps ++ p ∷ []) ≡ true
small-append [] p h l = ground arith
small-append (x ∷ ps) p h l = ground (arith, small-append ps p)

length-frame :
    (t : Tcp) (p ys : List ℕ) → length (frame t false p ++ ys) ≡ 4 + (length p + length ys)
unfolding frame
length-frame t p ys = omega (arith, length-append p ys)

read_frames-stream :
    (t : Tcp) (ps : List (List ℕ)) (fuel : ℕ)
    → small ps ≡ true
    → length (stream t ps) ≤ fuel
    → read_frames fuel (stream t ps) ≡ some (map (λ p. (t.rtp, p)) ps)
unfolding stream
read_frames-stream t [] fuel h l = ground arith
read_frames-stream t (p ∷ ps) zero h l = absurd (omega (arith, length-frame t p (stream t ps)))
read_frames-stream t (p ∷ ps) (suc fuel) h l =
    let (a, b) = &&-true (ltb (length p) (64 * 1024)) (small ps) h in
    read_frames-frame fuel t p (stream t ps) (ground (arith, a))
    ∙ simp (read_frames-stream t ps fuel b (omega (arith, length-frame t p (stream t ps))))

-- All that went out are the frames of the packets that were told of.
Whole : Tcp → Wire → Type 0
Whole t w = (w.written ≡ stream t w.told) × (small w.told ≡ true)

-- The connection takes all of a frame, or returns a negative number and takes nothing of it.
abbrev pub TakesFrames : Connection → Type 0
TakesFrames connection =
    (before bytes : List ℕ)
    → (connection before bytes ≡ (zero_ret, bytes)) ⊎ (connection before bytes ≡ (negative, []))

send_packet-Whole :
    (connection : Connection)
    → TakesFrames connection
    → (t : Tcp) (p : List ℕ) (w : Wire) → length p < 64 * 1024
    → Whole t w
    → (ret : Ret) × (w' : Wire) × (send_packet connection t p w ≡ some (ret, w')) × Whole t w'
unfolding send_packet tcp_send Whole
send_packet-Whole connection takes t p w l (e, h) = elim (takes w.written (frame t false p)) [
  | inl a ↦ (
    zero_ret,
    record { written = w.written ++ frame t false p; told = w.told ++ p ∷ [] },
    simp (lt→ltb (length p) (64 * 1024) l, a),
    (simp (stream-append t w.told p, e), small-append w.told p h l),
  )
  | inr a ↦ (
    negative,
    record w { written = w.written ++ [] },
    simp (lt→ltb (length p) (64 * 1024) l, a),
    (append-nil w.written ∙ e, h),
  )
]

send_packets-Whole :
    (connection : Connection)
    → TakesFrames connection
    → (t : Tcp) (ps : List (List ℕ)) (w : Wire) → small ps ≡ true
    → Whole t w
    → (w' : Wire) × (send_packets connection t ps w ≡ some w') × Whole t w'
unfolding send_packets
send_packets-Whole connection takes t [] w h g = (w, refl, g)
send_packets-Whole connection takes t (p ∷ ps) w h g =
    let (a, b) = &&-true (ltb (length p) (64 * 1024)) (small ps) h in
    let (ret, w1, e, g1) = send_packet-Whole connection takes t p w (ground (arith, a)) g in
    let (w2, f, g2) = send_packets-Whole connection takes t ps w1 b g1 in (w2, simp (e, f), g2)

-- A client that reads the interleaved data of the connection as RFC 2326, 10.12 says finds
-- exactly the packets that rtp_onsend was told of, in order, on the channel of the transport as
-- a byte, whichever frames the connection refuses. The conditions: the packets have less than 64
-- KiB, and the library takes all of a frame and returns 0, or takes nothing of it and returns a
-- negative number.
pub read_sent :
    (connection : Connection) (rtp rtcp : ℕ) (ps : List (List ℕ))
    → TakesFrames connection
    → small ps ≡ true
    → (w : Wire) × (send_packets connection
          (tcp_new rtp rtcp)
          ps
          (record { written = []; told = [] })
        ≡ some w)
      × (read_frames (length w.written) w.written ≡ some (map (λ p. (rtp % 256, p)) w.told))
unfolding Whole tcp_new stream
read_sent connection rtp rtcp ps takes h =
    let t : Tcp = tcp_new rtp rtcp in
    let (w, e, (f, g)) =
      send_packets-Whole connection takes t ps (record { written = []; told = [] }) h
        (refl, refl) in
    (w, e, rw f (read_frames-stream t w.told (length (stream t w.told)) g (omega arith)))
