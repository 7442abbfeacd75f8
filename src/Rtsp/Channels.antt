-- ===== src/Rtsp/Channels.antt =====
-- The channels of RTP over the connection: what the answer of a setup names, and what the frames carry.
use freak.Prelude.{
  ℕ, ◌+◌, ◌*◌, ◌%◌, ◌≡◌, ◌≤◌, ◌<◌, refl, sym, subst, ◌∙◌, Bool, true, Bool-cases, Option-cases, inl,
  inr, List, [], ◌∷◌, length, Option, some, none, some-injective, ◌==◌, arith,
}
use freak.Proto.Results.{>>=-some}
use freak.Memory.{alloc}
use freak.Rtsp.{Kind, tcp, Transport, Session, Entry}
use freak.Rtsp.Media.{add_transport, free_transport, contains, video_word}
use freak.Rtsp.Server.{
  Server, Offer, rtp_tcp, Env, Reply, Request, describe, setup_track, play_media, pause_media,
  other_request, teardown, find, update, choose, on_setup, give_transport, on_describe, on_play,
  on_pause, on_other, on_teardown, on_request, serve_all, server_init,
}
use freak.Rtsp.Setup.{on_setup-udp}
use freak.Rtsp.Runs.{Protocol-cases, answerable, all, runs-Tidy, request-Tidy}
use freak.Rtsp.Ownership.{Accounts, track_of}

give_transport-channel :
    (env : Env) (key : ℕ) (uri : List ℕ) (kind : Kind) (made : Bool) (channels : Option (ℕ × ℕ))
    (e : Entry) (s : Server) (a : Reply) (s' : Server)
    → give_transport env key uri kind made channels e s ≡ some (a, s')
    → s'.channel ≡ s.channel
unfolding give_transport
give_transport-channel env key uri kind made channels e s a s' h = ground arith

setup-channel :
    (env : Env) (key : ℕ) (uri : List ℕ) (offers : List Offer) (made : Bool) (s : Server)
    (a : Reply) (s' : Server)
    → on_setup env key uri offers made s ≡ some (a, s')
    → s'.channel ≤ s.channel + 2
unfolding on_setup
setup-channel env key uri offers made s a s' h = elim (Option-cases (find key s.sms)) [
  | inl f ↦ ground (arith, simp (on_setup, f) at h)
  | inr (e, f) ↦ elim (Option-cases (choose offers)) [
    | inl c ↦ ground (arith, simp (on_setup, f, c) at h)
    | inr (o, c) ↦ elim (Protocol-cases o.protocol) [
      | inl p ↦ elim (Bool-cases (o.interleaved1 == o.interleaved2)) [
        | inl i ↦ omega (
          arith,
          give_transport-channel env key uri _ made _ e (record s { channel = s.channel + 2 }) a s'
              (simp (on_setup, f, c, p, i) at h),
        )
        | inr i ↦ omega (
          arith,
          give_transport-channel env key uri _ made _ e s a s' (simp (on_setup, f, c, p, i) at h),
        )
      ]
      | inr p ↦ omega (
        arith,
        give_transport-channel env key uri _ made _ e s a s'
            (on_setup-udp env key uri offers made e o s (a, s') f c p h),
      )
    ]
  ]
]

request-channel :
    (env : Env) (r : Request) (s : Server) (a : Reply) (s' : Server)
    → on_request env r s ≡ some (a, s')
    → s'.channel ≤ s.channel + 2
unfolding on_request on_describe on_setup on_play on_pause on_other on_teardown
request-channel env (describe key uri) s a s' h = ground arith
request-channel env (setup_track key uri offers made) s a s' h =
    setup-channel env key uri offers made s a s' h
request-channel env (play_media key) s a s' h = ground arith
request-channel env (pause_media key) s a s' h = ground arith
request-channel env (other_request key) s a s' h = ground arith
request-channel env (teardown key) s a s' h = ground arith

run-channel :
    (env : Env) (rs : List Request) (s s' : Server)
    → serve_all env rs s ≡ some s'
    → s'.channel ≤ s.channel + 2 * length rs
unfolding serve_all
run-channel env [] s s' h = ground arith
run-channel env (r ∷ rs) s s' h =
    let ((a, s1), g, h1) = >>=-some (on_request env r s) (λ z. serve_all env rs z.1) s' h in
    omega (arith, request-channel env r s a s1 g, run-channel env rs s1 s' h1)

find-update :
    (key : ℕ) (m : Session) (es : List Entry) (e : Entry)
    → find key es ≡ some e
    → find key (update key m es) ≡ some (record e { media = m })
unfolding find update
find-update key m [] e h = ground arith
find-update key m (x ∷ xs) e h = ground (arith, find-update key m xs e)

-- The kind of a transport that is there.
abbrev pub kind_of : Option Transport → Option Kind
kind_of none = none
kind_of (some t) = some t.kind

-- The channels of an answer are those of the video transport that the client's session now has.
Told : ℕ → ℕ → Reply → Server → Type 0
Told key c a s' =
    (e' : Entry) × (a.interleaved ≡ some (c, c + 1))
    × (find key s'.sms ≡ some e')
    × (kind_of e'.media.video.transport ≡ some (tcp c (c + 1)))

setup-Told :
    (env : Env) (key : ℕ) (uri track : List ℕ) (offers : List Offer) (e : Entry) (o : Offer)
    (s : Server) (a : Reply) (s' : Server)
    → s.channel + 1 < 256
    → find key s.sms ≡ some e
    → choose offers ≡ some o
    → o.protocol ≡ rtp_tcp
    → (o.interleaved1 == o.interleaved2) ≡ true
    → track_of env uri ≡ some track
    → contains video_word track ≡ true
    → on_setup env key uri offers true s ≡ some (a, s')
    → Told key s.channel a s'
unfolding on_setup give_transport add_transport Told
setup-Told env key uri track offers e o s a s' l f c p i t v h =
    let small : (s.channel % 256 ≡ s.channel) × ((s.channel + 1) % 256 ≡ s.channel + 1) =
      (omega arith, omega arith) in
    let m : Session = record e.media {
      video = record e.media.video {
        transport = some (record {
          object = (alloc s.heap).0;
          kind = tcp (s.channel % 256) ((s.channel + 1) % 256);
        });
      };
    } in
    elim (Option-cases (free_transport e.media.video.transport ((alloc s.heap).1))) [
      | inl n ↦ ground (arith, simp (on_setup, f, c, p, i, t, v, n) at h)
      | inr (w, n) ↦
          subst (λ z. Told key s.channel z.0 z.1)
            (some-injective
              (
                record { code = 200; interleaved = some (s.channel, s.channel + 1) },
                record { sms = update key m s.sms; channel = s.channel + 2; heap = w },
              )
              (a, s') (simp (on_setup, f, c, p, i, t, v, n) at h))
            (record e { media = m }, refl, find-update key m s.sms e f, rw (small.0, small.1) refl)
    ]

-- If rtsp_onsetup chooses the channels itself, the answer names two that follow each other, both
-- are bytes, and the video transport of the session puts the same into its frames. The
-- conditions: at most 127 requests before, which could be answered; the client has a session,
-- its offer is RTP over the connection with equal channels, the track has video in it, and the
-- transport could be made.
pub setup_channels :
    (env : Env) (rs : List Request) (key : ℕ) (uri track : List ℕ) (offers : List Offer) (e : Entry)
    (o : Offer) (s : Server)
    → all (answerable env) rs ≡ true
    → length rs ≤ 127
    → serve_all env rs server_init ≡ some s
    → find key s.sms ≡ some e
    → choose offers ≡ some o
    → o.protocol ≡ rtp_tcp
    → (o.interleaved1 == o.interleaved2) ≡ true
    → track_of env uri ≡ some track
    → contains video_word track ≡ true
    → (a : Reply) × (s' : Server) × (c : ℕ) × (e' : Entry) × (on_setup env key uri offers true s
        ≡ some (a, s'))
      × (a.interleaved ≡ some (c, c + 1))
      × (c + 1 < 256)
      × (find key s'.sms ≡ some e')
      × (kind_of e'.media.video.transport ≡ some (tcp c (c + 1)))
unfolding server_init Told on_request
setup_channels env rs key uri track offers e o s v l r f c p i t d =
    let (y, s1, r1, h, _) = runs-Tidy env rs (λ k. 0) server_init (λ k. refl) v in
    let h' : Accounts (λ k. 0 + y k) s =
      subst (Accounts (λ k. 0 + y k)) (some-injective s1 s (sym r1 ∙ r)) h in
    let (_, (a, s', g, _), _) =
      request-Tidy env (setup_track key uri offers true) _ s h' (simp (t, c, p)) in
    let b : s.channel ≤ 0 + 2 * length rs = run-channel env rs server_init s r in
    let n : s.channel + 1 < 256 = omega arith in
    let (e', k, m, q) = setup-Told env key uri track offers e o s a s' n f c p i t d g in
    (a, s', s.channel, e', g, k, n, m, q)
