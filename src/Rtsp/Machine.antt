-- ===== src/Rtsp/Machine.antt =====
-- Whole runs of the server against the state machine of its clients.
use freak.Prelude.{
  ℕ, ◌+◌, ◌≡◌, refl, sym, ap, subst, Bool, true, false, Bool-cases, Option-cases, ◌⊎◌, inl, inr,
  List, [], ◌∷◌, ◌∙◌, Option, some, none, some-injective, ◌==◌, if◌then◌else◌, arith,
}
use freak.Proto.Results.{>>=-some}
use freak.Memory.{Heap, alloc, release}
use freak.Rtsp.{Status, Kind, Session, Entry, Transport}
use freak.Rtsp.Media.{add_transport, live_free}
use freak.Rtsp.Server.{
  Server, Offer, rtp_udp, rtp_tcp, other, Env, Reply, reply, Request, describe, setup_track,
  play_media, pause_media, other_request, teardown, find, delete, update, choose, behind_slash,
  on_setup, give_transport, on_pause, on_other, on_teardown, on_request, serve_all, server_init,
}
use freak.Rtsp.Setup.{on_setup-udp}
use freak.Rtsp.Phases.{phase}
use freak.Rtsp.Sessions.{
  Single, client, after, code_of, Answered, same-Follows, update-Follows, delete-Follows,
  add_transport-status, describe-Answered, play-Answered,
}
use freak.Rtsp.Runs.{Protocol-cases, request-Tidy, runs-Tidy, answerable, all}

give_transport-Answered :
    (env : Env) (key : ℕ) (uri : List ℕ) (offers : List Offer) (made : Bool) (kind : Kind)
    (channels : Option (ℕ × ℕ)) (e : Entry) (o : Offer) (s0 s : Server) (a : Reply) (s' : Server)
    → Single s.sms
    → s0.sms ≡ s.sms
    → find key s.sms ≡ some e
    → choose offers ≡ some o
    → give_transport env key uri kind made channels e s0 ≡ some (a, s')
    → Answered (setup_track key uri offers made) s a s'
unfolding give_transport
give_transport-Answered env key uri offers made kind channels e o s0 s a s' u z f c h =
    let w : Heap = if made then (alloc s0.heap).1 else s0.heap in
    let t : Option Transport =
      if made then some (record { object = (alloc s0.heap).0; kind = kind }) else none in
    let answer : ℕ × Session × Heap → Reply × Server = λ r. (
      record { code = 200; interleaved = channels },
      record s0 { sms = update key r.1 s0.sms; heap = r.2 },
    ) in
    let (r, g, p) =
      >>=-some (add_transport (behind_slash (env.uri_path uri)) t e.media w) (λ r. some (answer r))
        (a, s') h in
    subst (λ z. Answered (setup_track key uri offers made) s z.0 z.1)
      (some-injective (answer r) (a, s') p)
      (
        simp (f, c),
        rw z (
            update-Follows (setup_track key uri offers made) s.sms e r.1 f
              (ap some (sym (add_transport-status _ _ e.media _ r.0 r.1 r.2 g))) u),
      )

module _ (env : Env) (key : ℕ) (uri : List ℕ) (offers : List Offer) (made : Bool) (s : Server)
    (a : Reply) (s' : Server) (u : Single s.sms) where
  tcp-Answered :
      (e : Entry) (o : Offer)
      → find key s.sms ≡ some e
      → choose offers ≡ some o
      → o.protocol ≡ rtp_tcp
      → on_setup env key uri offers made s ≡ some (a, s')
      → Answered (setup_track key uri offers made) s a s'
  unfolding on_setup
  tcp-Answered e o f c p h = elim (Bool-cases (o.interleaved1 == o.interleaved2)) [
    | inl i ↦
        give_transport-Answered env key uri offers made _ _ e o
          (record s { channel = s.channel + 2 }) s a s' u refl f c
          (simp (on_setup, f, c, p, i) at h)
    | inr i ↦
        give_transport-Answered env key uri offers made _ _ e o s s a s' u refl f c
          (simp (on_setup, f, c, p, i) at h)
  ]

  udp-Answered :
      (e : Entry) (o : Offer)
      → find key s.sms ≡ some e
      → choose offers ≡ some o
      → (o.protocol ≡ rtp_udp) ⊎ (o.protocol ≡ other)
      → on_setup env key uri offers made s ≡ some (a, s')
      → Answered (setup_track key uri offers made) s a s'
  udp-Answered e o f c p h =
      give_transport-Answered env key uri offers made _ _ e o s s a s' u refl f c
        (on_setup-udp env key uri offers made e o s (a, s') f c p h)

  setup-Answered :
      on_setup env key uri offers made s ≡ some (a, s')
      → Answered (setup_track key uri offers made) s a s'
  unfolding on_setup
  setup-Answered h = elim (Option-cases (find key s.sms)) [
    | inl f ↦
        subst (λ z. Answered (setup_track key uri offers made) s z.0 z.1)
          (some-injective (reply 454, s) (a, s') (simp (on_setup, f) at h))
          (simp f, same-Follows (setup_track key uri offers made) s.sms none f refl u)
    | inr (e, f) ↦ elim (Option-cases (choose offers)) [
      | inl c ↦
          subst (λ z. Answered (setup_track key uri offers made) s z.0 z.1)
            (some-injective (reply 461, s) (a, s') (simp (on_setup, f, c) at h))
            (simp (f, c), same-Follows (setup_track key uri offers made) s.sms (some e) f refl u)
      | inr (o, c) ↦ elim (Protocol-cases o.protocol) [
        | inl p ↦ tcp-Answered e o f c p h
        | inr p ↦ udp-Answered e o f c p h
      ]
    ]
  ]

  teardown-Answered : on_teardown key s ≡ some (a, s') → Answered (teardown key) s a s'
  unfolding on_teardown
  teardown-Answered h = elim (Option-cases (find key s.sms)) [
    | inl f ↦
        subst (λ z. Answered (teardown key) s z.0 z.1)
          (some-injective (reply 200, s) (a, s') (simp (on_teardown, f) at h))
          (refl, same-Follows (teardown key) s.sms none f refl u)
    | inr (e, f) ↦
        (let (w, g, h1) =
            >>=-some (live_free e.media s.heap) _ (a, s') (simp (on_teardown, f) at h) in
          let (w', g', p) = >>=-some (release e.object w) _ (a, s') h1 in
          subst (λ z. Answered (teardown key) s z.0 z.1)
            (some-injective (reply 200, record s { sms = delete key s.sms; heap = w' }) (a, s') p)
            (refl, delete-Follows (teardown key) s.sms e f refl u))
  ]

request-Answered :
    (env : Env) (r : Request) (s : Server) (a : Reply) (s' : Server)
    → Single s.sms
    → on_request env r s ≡ some (a, s')
    → Answered r s a s'
unfolding on_request on_pause on_other
request-Answered env (describe key uri) s a s' u h =
    subst (λ z. Answered (describe key uri) s z.0 z.1) (some-injective _ (a, s') h)
      (describe-Answered env key uri s u)
request-Answered env (setup_track key uri offers made) s a s' u h =
    setup-Answered env key uri offers made s a s' u h
request-Answered env (play_media key) s a s' u h =
    subst (λ z. Answered (play_media key) s z.0 z.1) (some-injective _ (a, s') h)
      (play-Answered key s u)
request-Answered env (pause_media key) s a s' u h =
    subst (λ z. Answered (pause_media key) s z.0 z.1) (some-injective _ (a, s') h)
      (refl, same-Follows (pause_media key) s.sms (find key s.sms) refl refl u)
request-Answered env (other_request key) s a s' u h =
    subst (λ z. Answered (other_request key) s z.0 z.1) (some-injective _ (a, s') h)
      (refl, same-Follows (other_request key) s.sms (find key s.sms) refl refl u)
request-Answered env (teardown key) s a s' u h = teardown-Answered env key [] [] false s a s' u h

-- The state of a client after a list of requests.
abbrev pub advance : ℕ → List Request → Option Status → Option Status
advance key [] p = p
advance key (r ∷ rs) p = advance key rs (if client r == key then after r p else p)

run_advance :
    (env : Env) (rs : List Request) (s s' : Server)
    → Single s.sms
    → serve_all env rs s ≡ some s'
    → Single s'.sms × ((key : ℕ) → phase key s'.sms ≡ advance key rs (phase key s.sms))
unfolding serve_all
run_advance env [] s s' u h =
    subst (λ z. Single z.sms × ((key : ℕ) → phase key z.sms ≡ phase key s.sms))
      (some-injective s s' h) (u, λ k. refl)
run_advance env (r ∷ rs) s s' u h =
    let ((a, s1), g, h1) = >>=-some (on_request env r s) (λ z. serve_all env rs z.1) s' h in
    let (c, (u1, f)) = request-Answered env r s a s1 u g in
    let (u2, f2) = run_advance env rs s1 s' u1 h1 in (u2, λ k. f2 k ∙ ap (advance k rs) (f k))

-- After any requests that can be answered, the next one is answered, with the code that a small
-- state machine per client gives: 454 without a session, 461 without an offer that is known,
-- else 200; and each client's session is in the state of that machine: a describe makes it, a
-- play sets it to PLAY, a teardown ends it, the others leave it, and no request touches another
-- client's. A setup can be answered if the URI's path has a slash and a UDP offer that is taken
-- has no multicast and both ports.
pub run_answered :
    (env : Env) (rs : List Request) (r : Request)
    → all (answerable env) rs ≡ true
    → answerable env r ≡ true
    → (s : Server) × (a : Reply) × (s' : Server) × (serve_all env rs server_init ≡ some s)
      × (on_request env r s ≡ some (a, s'))
      × (a.code ≡ code_of r (advance (client r) rs none))
      × ((key : ℕ)
          → phase key s'.sms
            ≡ (if client r == key then after r (advance key rs none) else advance key rs none))
unfolding server_init find
run_answered env rs r v b =
    let (y, s, e, h, t) = runs-Tidy env rs (λ k. 0) server_init (λ k. refl) v in
    let (z, (a, s', g, h'), t') = request-Tidy env r _ s h b in
    let (u, f) = run_advance env rs server_init s (λ k. omega arith) e in
    let (c, (u', f')) = request-Answered env r s a s' u g in
    (
      s,
      a,
      s',
      e,
      g,
      c ∙ ap (code_of r) (f (client r)),
      λ k. f' k ∙ ap (λ p. if client r == k then after r p else p) (f k),
    )
