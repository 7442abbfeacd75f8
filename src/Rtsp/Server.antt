-- ===== src/Rtsp/Server.antt =====
-- rtsp-server.c: the handlers of the requests and the table of the sessions.
use freak.Prelude.{
  ℕ, ◌+◌, ◌%◌, Bool, true, false, List, [], ◌∷◌, ◌++◌, Option, some, none, ◌==◌, if◌then◌else◌,
}
use freak.Proto.{◌>>=◌, ◌>>◌, check}
use freak.Memory.{Heap, alloc, release}
use freak.Rtsp.{Kind, tcp, udp, Transport, Session, Entry}
use freak.Rtsp.Media.{live_new, get_sdp, start_play, add_transport, live_free}

-- `rtsp_server_priv_t`; `channel` does not reach 2^31.
pub record Server : Type 0 where
  pub sms : List Entry
  pub channel : ℕ
  pub heap : Heap

-- `struct rtsp_header_transport_t`, as far as `rtsp_onsetup` reads it.
pub data Protocol : Type 0 where
  rtp_udp rtp_tcp other : Protocol

pub record Offer : Type 0 where
  pub protocol : Protocol
  pub multicast : Bool
  pub client_port1 : ℕ
  pub client_port2 : ℕ
  pub interleaved1 : ℕ
  pub interleaved2 : ℕ

-- What a request is answered with: the code, and the channels of `RTP/AVP/TCP;interleaved=…`.
pub record Reply : Type 0 where
  pub code : ℕ
  pub interleaved : Option (ℕ × ℕ)

abbrev pub reply : ℕ → Reply
reply code = record { code = code; interleaved = none }

-- `HASH_FIND_STR`, `HASH_DEL` and the write through the pointer that was found.
unfoldable pub find : ℕ → List Entry → Option Entry
find key [] = none
find key (e ∷ es) = if e.key == key then some e else find key es

unfoldable pub delete : ℕ → List Entry → List Entry
delete key [] = []
delete key (e ∷ es) = if e.key == key then es else e ∷ delete key es

unfoldable pub update : ℕ → Session → List Entry → List Entry
update key s [] = []
update key s (e ∷ es) = if e.key == key then record e { media = s } ∷ es else e ∷ update key s es

-- The loop over the transports that the client offers.
unfoldable pub choose : List Offer → Option Offer
choose [] = none
choose (t ∷ ts) = elim t.protocol [ rtp_udp ↦ some t | rtp_tcp ↦ some t | other ↦ choose ts ]

-- `strrchr(path, '/')`: what stands behind the last slash.
unfoldable pub behind_slash : List ℕ → Option (List ℕ)
behind_slash [] = none
behind_slash (c ∷ cs) = elim (behind_slash cs) [
  | some track ↦ some track
  | none ↦ if c == 47 then some cs else none
]

-- The environment: the path of a URI, empty where it cannot be parsed; and the rings.
pub record Env : Type 0 where
  pub uri_path : List ℕ → List ℕ
  pub ring : List ℕ → Bool

module _ (env : Env) where
  -- `rtsp_ondescribe` by the client `key`
  unfoldable pub on_describe : ℕ → List ℕ → Server → Reply × Server
  on_describe key uri s = elim (find key s.sms) [
    | some e ↦
        (let (ok, media, w) = get_sdp env.ring e.media s.heap in
          (reply 200, record s { sms = update key media s.sms; heap = w }))
    | none ↦
        (let (object, w1) = alloc s.heap in
          let (media, w2) = live_new (env.uri_path uri) w1 in
          let (ok, media', w3) = get_sdp env.ring media w2 in
          let e : Entry = record { object = object; key = key; media = media' } in
          (reply 200, record s { sms = s.sms ++ e ∷ []; heap = w3 }))
  ]

  -- The part of `rtsp_onsetup` behind the choice of the channels: the transport is made, if `made`,
  -- and given to the track.
  unfoldable pub give_transport :
      ℕ → List ℕ → Kind → Bool → Option (ℕ × ℕ) → Entry → Server → Option (Reply × Server)
  give_transport key uri kind made channels e s =
      let track : Option (List ℕ) = behind_slash (env.uri_path uri) in
      let (object, w) = alloc s.heap in
      let t : Option Transport =
        if made then some (record { object = object; kind = kind }) else none in
      add_transport track t e.media (if made then w else s.heap) >>= λ (ret, media, w'). some (
        record { code = 200; interleaved = channels },
        record s { sms = update key media s.sms; heap = w' },
      )

  -- The branch of `rtsp_onsetup` for RTP over the connection. The channels of the transport are bytes.
  abbrev pub setup_tcp : ℕ → List ℕ → Offer → Bool → Entry → Server → Option (Reply × Server)
  setup_tcp key uri t made e s =
      if t.interleaved1 == t.interleaved2
      then give_transport key uri (tcp (s.channel % 256) ((s.channel + 1) % 256)) made
          (some (s.channel, s.channel + 1)) e (record s { channel = s.channel + 2 })
      else give_transport key uri (tcp (t.interleaved1 % 256) (t.interleaved2 % 256)) made
          (some (t.interleaved1, t.interleaved2)) e s

  -- The branches for UDP, with their assertions.
  abbrev pub setup_udp : ℕ → List ℕ → Offer → Bool → Entry → Server → Option (Reply × Server)
  setup_udp key uri t made e s =
      check (if t.multicast then false else true)
      >> check (if t.client_port1 == 0 then false else true)
      >> check (if t.client_port2 == 0 then false else true)
      >> give_transport key uri udp made none e s

  -- `rtsp_onsetup`; `made` says whether `rtp_tcp_transport_new` or `rtp_udp_transport_new` returns an
  -- object. Its test `ret < 0` is never true.
  unfoldable pub on_setup : ℕ → List ℕ → List Offer → Bool → Server → Option (Reply × Server)
  on_setup key uri offers made s = elim (find key s.sms) [
    | none ↦ some (reply 454, s)
    | some e ↦ elim (choose offers) [
      | none ↦ some (reply 461, s)
      | some t ↦ elim t.protocol [
        | rtp_tcp ↦ setup_tcp key uri t made e s
        | _ ↦ setup_udp key uri t made e s
      ]
    ]
  ]

-- `rtsp_onplay`
unfoldable pub on_play : ℕ → Server → Reply × Server
on_play key s = elim (find key s.sms) [
  | none ↦ (reply 454, s)
  | some e ↦
      (let (media, w) = start_play e.media s.heap in
        (reply 200, record s { sms = update key media s.sms; heap = w }))
]

-- `rtsp_onpause`
unfoldable pub on_pause : ℕ → Server → Reply × Server
on_pause key s = (reply 200, s)

-- `rtsp_onannounce`, `rtsp_onrecord`, `rtsp_onoptions`, `rtsp_ongetparameter` and `rtsp_onsetparameter`
unfoldable pub on_other : ℕ → Server → Reply × Server
on_other key s = (reply 200, s)

-- `rtsp_onteardown`
unfoldable pub on_teardown : ℕ → Server → Option (Reply × Server)
on_teardown key s = elim (find key s.sms) [
  | none ↦ some (reply 200, s)
  | some e ↦
      (live_free e.media s.heap >>= λ w.
      release e.object w >>= λ w'. some (reply 200, record s { sms = delete key s.sms; heap = w' }))
]

-- `rtsp_server_init`, when the server listens.
unfoldable pub server_init : Server
server_init = record { sms = []; channel = 0; heap = record { next = 0; live = []; newest = [] } }

-- The loop of `rtsp_server_uninit`
unfoldable pub free_all : List Entry → Heap → Option Heap
free_all [] w = some w
free_all (e ∷ es) w = live_free e.media w >>= λ w1. release e.object w1 >>= λ w2. free_all es w2

-- `rtsp_server_uninit`: what lives when it returns.
unfoldable pub server_uninit : Server → Option Heap
server_uninit s = free_all s.sms s.heap

-- The requests, each with its client, and the handlers that they come to.
pub data Request : Type 0 where
  describe : ℕ → List ℕ → Request
  setup_track : ℕ → List ℕ → List Offer → Bool → Request
  play_media : ℕ → Request
  pause_media : ℕ → Request
  other_request : ℕ → Request
  teardown : ℕ → Request

module _ (env : Env) where
  unfoldable pub on_request : Request → Server → Option (Reply × Server)
  on_request (describe key uri) s = some (on_describe env key uri s)
  on_request (setup_track key uri offers made) s = on_setup env key uri offers made s
  on_request (play_media key) s = some (on_play key s)
  on_request (pause_media key) s = some (on_pause key s)
  on_request (other_request key) s = some (on_other key s)
  on_request (teardown key) s = on_teardown key s

  -- The server after a list of requests.
  unfoldable pub serve_all : List Request → Server → Option Server
  serve_all [] s = some s
  serve_all (r ∷ rs) s = on_request r s >>= λ (answer, s'). serve_all rs s'
