-- ===== src/Rtsp/Tests.antt =====
-- The theorems on the RTSP server at concrete sessions.
use freak.Prelude.{
  ℕ, ◌+◌, ◌≡◌, ◌<◌, refl, replicate, leb, Bool-cases, inl, inr, true, false, List, [], ◌∷◌, ◌++◌,
  length, map, some, none, ◌==◌, if◌then◌else◌, arith,
}
use freak.Media.{Pack}
use freak.Memory.{Heap, alloc}
use freak.Memory.Counting.{count}
use freak.Rtsp.Owned.{in_entries}
use freak.Rtsp.{setup, exit, play, tcp, Entry}
use freak.Rtsp.Sender.{Turn}
use freak.Rtsp.Ending.{Shot}
use freak.Rtsp.Channels.{kind_of, setup_channels}
use freak.Rtsp.Media.{video_word, audio_word, no_track, live_new, get_sdp, ensure, start_play}
use freak.Rtsp.Server.{
  Server, Offer, rtp_udp, rtp_tcp, Env, Reply, Request, describe, setup_track, play_media,
  pause_media, other_request, teardown, find, choose, update, on_describe, on_play, behind_slash,
  on_setup, on_request, serve_all, server_init, server_uninit,
}
use freak.Rtsp.Framing.{tcp_new, Wire, send_packets, Connection, zero_ret, negative}
use freak.Rtsp.Reader.{read_frames, TakesFrames, read_sent}
use freak.Rtsp.Runs.{run_freed, run_clean}
use freak.Rtsp.Phases.{phase}
use freak.Rtsp.Sessions.{after}
use freak.Rtsp.Machine.{advance, run_answered}

-- Every path is a ring's, and a URI is its path.
abbrev env : Env
env = record { uri_path = λ uri. uri; ring = λ path. true }

abbrev over_tcp : Offer
over_tcp = record {
  protocol = rtp_tcp;
  multicast = false;
  client_port1 = 0;
  client_port2 = 0;
  interleaved1 = 0;
  interleaved2 = 0;
}

abbrev over_udp : Offer
over_udp = record {
  protocol = rtp_udp;
  multicast = false;
  client_port1 = 5000;
  client_port2 = 5001;
  interleaved1 = 0;
  interleaved2 = 0;
}

-- "/0-0", and a track behind it
abbrev path : List ℕ
path = 47 ∷ 48 ∷ 45 ∷ 48 ∷ []

abbrev track_uri : List ℕ → List ℕ
track_uri word = path ++ 47 ∷ word

-- Two clients; the first sets its video up twice and leaves.
abbrev visits : List Request
visits =
    describe 1 path
    ∷ setup_track 1 (track_uri video_word) (over_tcp ∷ []) true
    ∷ describe 2 path
    ∷ setup_track 1 (track_uri video_word) (over_udp ∷ []) true
    ∷ setup_track 2 (track_uri audio_word) (over_tcp ∷ []) true
    ∷ play_media 1
    ∷ pause_media 1
    ∷ other_request 2
    ∷ teardown 1
    ∷ []

-- A setup of the track "x"
abbrev stray : Request
stray = setup_track 2 (track_uri (120 ∷ [])) (over_udp ∷ []) true

run_freed_example :
    (s : Server) × (w : Heap) × (serve_all env (visits ++ stray ∷ []) server_init ≡ some s)
    × (server_uninit s ≡ some w)
    × ((k : ℕ) → count k w.live + in_entries s.sms k ≡ count k s.heap.live)
unfolding behind_slash choose
run_freed_example = run_freed env (visits ++ stray ∷ []) refl

run_clean_example :
    (s : Server) × (w : Heap) × (serve_all env visits server_init ≡ some s)
    × (server_uninit s ≡ some w)
    × (w.live ≡ [])
unfolding behind_slash choose
run_clean_example = run_clean env visits refl refl

run_answered_example :
    (s : Server) × (a : Reply) × (s' : Server) × (serve_all env visits server_init ≡ some s)
    × (on_request env (play_media 1) s ≡ some (a, s'))
    × (a.code ≡ 454)
    × ((key : ℕ)
        → phase key s'.sms ≡ (
            if 1 == key
            then after (play_media 1) (advance key visits none)
            else advance key visits none))
unfolding behind_slash choose
run_answered_example = run_answered env visits (play_media 1) refl refl

-- A connection that is closed when six bytes went out.
abbrev takes_short : Connection
takes_short before bytes = if leb (length before) 6 then (zero_ret, bytes) else (negative, [])

takes_short-TakesFrames : TakesFrames takes_short
takes_short-TakesFrames before bytes = elim (Bool-cases (leb (length before) 6)) [
  | inl e ↦ inl (rw e refl)
  | inr e ↦ inr (rw e refl)
]

read_sent_example :
    (w : Wire) × (send_packets takes_short
        (tcp_new 2 3)
        ((36 ∷ 0 ∷ []) ∷ [] ∷ (9 ∷ []) ∷ [])
        (record { written = []; told = [] })
      ≡ some w)
    × (read_frames (length w.written) w.written ≡ some (map (λ p. (2, p)) w.told))
read_sent_example =
    read_sent takes_short 2 3 ((36 ∷ 0 ∷ []) ∷ [] ∷ (9 ∷ []) ∷ []) takes_short-TakesFrames refl

-- The session of client 1 after its description, and the server.
abbrev described : Entry
described = record {
  object = 0;
  key = 1;
  media = record {
    object = 1;
    path = path;
    status = setup;
    video = record { rtp = some 4; packer = some 2; fifo = some 3; transport = none };
    audio = no_track;
    meta = no_track;
  };
}

abbrev one_client : Server
one_client = record {
  sms = described ∷ [];
  channel = 0;
  heap = record { next = 5; live = 4 ∷ 3 ∷ 2 ∷ 1 ∷ 0 ∷ []; newest = [] };
}

served : serve_all env (describe 1 path ∷ []) server_init ≡ some one_client
unfolding serve_all on_request on_describe server_init find live_new get_sdp ensure alloc
served = refl

setup_channels_example :
    (a : Reply) × (s' : Server) × (c : ℕ) × (e' : Entry) × (on_setup env 1
        (track_uri video_word)
        (over_tcp ∷ [])
        true
        one_client
      ≡ some (a, s'))
    × (a.interleaved ≡ some (c, c + 1))
    × (c + 1 < 256)
    × (find 1 s'.sms ≡ some e')
    × (kind_of e'.media.video.transport ≡ some (tcp c (c + 1)))
unfolding behind_slash choose find
setup_channels_example =
    setup_channels env (describe 1 path ∷ []) 1 (track_uri video_word) video_word (over_tcp ∷ [])
      described over_tcp one_client refl (omega arith) served refl refl refl refl refl refl

-- A client that plays without a setup: the sending thread finds no transport.
played_bare :
    serve_all env (describe 1 path ∷ play_media 1 ∷ []) server_init
    ≡ some (record one_client {
      sms = record described { media = record described.media { status = play } } ∷ [];
      heap = record one_client.heap { newest = 3 ∷ [] };
    })
unfolding serve_all on_request on_describe on_play start_play server_init find update live_new
    get_sdp ensure alloc
played_bare = refl

abbrev slice_pack : Pack
slice_pack = record {
  phy_addr = 0;
  addr = 4096;
  len = 3;
  offset = 0;
  pts = 1000;
  pack_type = 5;
  pad = 0;
  mem = 101 ∷ 136 ∷ 9 ∷ [];
}

-- `data` of `rtp_media_priv_t`.
unfoldable data_buffer : List ℕ
data_buffer = replicate 524288 0

abbrev shot : ℕ → Shot
shot cut = record {
  stream = record { pst_pack = 64; packs = slice_pack ∷ []; seq = 1; en_type = 0; pad = 0 };
  sec = 1;
  nsec = 0;
  cut = cut;
  old = data_buffer;
}

abbrev last_turn : Turn
last_turn = record { status = exit; fifo = true; packer = true; got = none }
