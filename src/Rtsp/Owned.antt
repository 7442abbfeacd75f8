-- ===== src/Rtsp/Owned.antt =====
-- What each part of the server holds, as the number of times that it holds an object, and destructors
-- that free exactly that.
use freak.Prelude.{ℕ, ◌+◌, List, [], ◌∷◌, Option, some, none}
use freak.Memory.Counting.{
  object-Frees, release-Frees, Frees, some-Frees, in_object, >>=-Frees, one,
}
use freak.Rtsp.{Transport, Track, Session, Entry}
use freak.Rtsp.Media.{free_transport, free_track, live_free}
use freak.Rtsp.Server.{free_all}

abbrev pub in_transport : Option Transport → ℕ → ℕ
in_transport none k = 0
in_transport (some t) k = one t.object k

abbrev pub in_track : Track → ℕ → ℕ
in_track t k =
    in_transport t.transport k + (in_object t.packer k + (in_object t.rtp k + in_object t.fifo k))

abbrev pub in_session : Session → ℕ → ℕ
in_session s k = in_track s.video k + (in_track s.audio k + (in_track s.meta k + one s.object k))

abbrev pub in_entries : List Entry → ℕ → ℕ
in_entries [] k = 0
in_entries (e ∷ es) k = in_session e.media k + (one e.object k + in_entries es k)

pub transport-Frees : (o : Option Transport) → Frees (free_transport o) (in_transport o)
unfolding free_transport
transport-Frees none = some-Frees
transport-Frees (some t) = release-Frees t.object

track-Frees : (t : Track) → Frees (free_track t) (in_track t)
unfolding free_track
track-Frees t = >>=-Frees _ _ _ _ (transport-Frees t.transport) (
    >>=-Frees _ _ _ _ (object-Frees t.packer)
      (>>=-Frees _ _ _ _ (object-Frees t.rtp) (object-Frees t.fifo)))

pub session-Frees : (s : Session) → Frees (live_free s) (in_session s)
unfolding live_free
session-Frees s = >>=-Frees _ _ _ _ (track-Frees s.video) (
    >>=-Frees _ _ _ _ (track-Frees s.audio)
      (>>=-Frees _ _ _ _ (track-Frees s.meta) (release-Frees s.object)))

pub entries-Frees : (es : List Entry) → Frees (free_all es) (in_entries es)
unfolding free_all
entries-Frees [] = some-Frees
entries-Frees (e ∷ es) =
    >>=-Frees _ _ _ _ (session-Frees e.media)
      (>>=-Frees _ _ _ _ (release-Frees e.object) (entries-Frees es))
