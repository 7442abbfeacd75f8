-- ===== src/Rtsp/Setup.antt =====
-- What an answered setup for UDP came from.
use freak.Prelude.{◌≡◌, ◌⊎◌, inl, inr, ℕ, Bool, List, some, none}
use freak.Proto.Results.{check-some}
use freak.Rtsp.{udp, Entry}
use freak.Rtsp.Server.{
  Server, Offer, rtp_udp, other, Env, Reply, find, choose, on_setup, give_transport,
}

pub on_setup-udp :
    (env : Env) (key : ℕ) (uri : List ℕ) (offers : List Offer) (made : Bool) (e : Entry) (o : Offer)
    (s : Server) (b : Reply × Server)
    → find key s.sms ≡ some e
    → choose offers ≡ some o
    → (o.protocol ≡ rtp_udp) ⊎ (o.protocol ≡ other)
    → on_setup env key uri offers made s ≡ some b
    → give_transport env key uri udp made none e s ≡ some b
unfolding on_setup
on_setup-udp env key uri offers made e o s b f c p h =
    check-some _ _ _ _ b
      (elim p [ inl q ↦ simp (on_setup, f, c, q) at h | inr q ↦ simp (on_setup, f, c, q) at h ])
