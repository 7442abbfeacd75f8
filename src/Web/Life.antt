-- ===== src/Web/Life.antt =====
-- The life of a session: what lives while which thread is where.
use freak.Prelude.{
  ℕ, zero, suc, ◌+◌, ◌-◌, ◌≡◌, ◌≢◌, ◌<◌, refl, sym, subst, Bool, true, false, ◌⊎◌, inl, inr, Option,
  some, some-injective, arith,
}
use freak.Web.{
  held, gone, MediaStatus, setup, play, exit, idle, opened, registered, closed, absent, asleep,
  looping, taking, closing, ended, World, accepted, media_session_new, media_regcallback, on_close,
  on_media_read, sender_start, sender_test, sender_take, sender_finish, Step, opens, registers,
  closes, reads, starts, tests, takes, finishes, Reached, begin, next,
}

-- What holds between the steps, if the callbacks are registered in time.
pub record Sound (w : World) : Type 0 where
  pub before : w.poll ≡ idle → w.sender ≡ absent
  pub none_yet :
      w.sender ≡ absent
      → (w.user_data ≡ false) × (w.known ≡ false) × (w.poll ≢ registered) × (w.poll ≢ opened)
  pub half :
      w.poll ≡ opened
      → (w.sender ≡ asleep) × (w.user_data ≡ false) × (w.obj ≡ held) × (w.known ≡ false)
  pub joined :
      w.poll ≡ registered
      → (w.user_data ≡ true) × (w.known ≡ true) × (w.obj ≡ held) × (w.status ≡ play)
  pub parted :
      w.poll ≡ closed
      → (w.user_data ≡ false)
        × (w.sender ≢ absent → (w.obj ≡ gone) × (w.status ≡ exit) × (w.known ≡ true))
  pub sleeps :
      w.sender ≡ asleep → (w.session ≡ held) × (w.priv ≡ held) × (w.fifo ≡ held) × (w.posted ≡ 0)
  pub runs :
      (w.sender ≡ looping) ⊎ ((w.sender ≡ taking) ⊎ (w.sender ≡ closing))
      → (w.session ≡ held)
        × (w.priv ≡ held)
        × (w.fifo ≡ held)
        × (w.buf ≡ held)
        × (w.muxer ≡ held)
        × (w.known ≡ true)
  pub leaves : (w.sender ≡ closing) ⊎ (w.sender ≡ ended) → w.poll ≡ closed
  pub silent : w.sender ≡ absent → w.posted ≡ 0
  pub done :
      w.sender ≡ ended
      → (w.session ≡ gone) × (w.priv ≡ gone) × (w.fifo ≡ gone) × (w.buf ≡ gone) × (w.muxer ≡ gone)

-- A step that ends in no fault, and soundly.
Goes : Option World → Type 0
Goes o = (w' : World) × (o ≡ some w') × Sound w'

start-Sound : Sound accepted
start-Sound = record {
  before = λ h. refl;
  none_yet = λ h. (refl, refl, ground arith, ground arith);
  half = λ h. absurd (ground (arith, h));
  joined = λ h. absurd (ground (arith, h));
  parted = λ h. absurd (ground (arith, h));
  sleeps = λ h. absurd (ground (arith, h));
  runs = λ h. absurd (ground (arith, h));
  leaves = λ h. absurd (ground (arith, h));
  silent = λ h. refl;
  done = λ h. absurd (ground (arith, h));
}

open-Goes : (made : Bool) (w : World) → Sound w → w.poll ≡ idle → Goes (media_session_new made w)
unfolding media_session_new Goes
open-Goes false w h e = (w, refl, h)
open-Goes true w h e = (_, refl, ground arith)

register-Goes : (w : World) → Sound w → w.poll ≡ opened → Goes (media_regcallback w)
unfolding media_regcallback Goes
register-Goes w h e = (
  record w { known = true; status = play; user_data = true; poll = registered },
  ground arith,
  ground arith,
)

close-Goes : (w : World) → Sound w → (w.poll ≡ idle) ⊎ (w.poll ≡ registered) → Goes (on_close w)
unfolding on_close Goes
close-Goes w h (inl e) = (record w { poll = closed }, ground arith, ground arith)
close-Goes w h (inr e) = (
  record w { status = exit; obj = gone; user_data = false; poll = closed },
  ground arith,
  ground arith,
)

read-Goes : (w : World) → Sound w → 0 < w.posted → Goes (on_media_read w)
unfolding on_media_read Goes
read-Goes w h e = (record w { posted = w.posted - 1 }, ground arith, ground arith)

sender_start-Goes :
    (w : World) → Sound w → w.sender ≡ asleep → w.known ≡ true → Goes (sender_start w)
unfolding sender_start Goes
sender_start-Goes w h e k =
    (record w { muxer = held; sender = looping; buf = held }, ground arith, ground arith)

sender_take-Goes : (n : ℕ) (w : World) → Sound w → w.sender ≡ taking → Goes (sender_take n w)
unfolding sender_take Goes
sender_take-Goes zero w h e = (record w { sender = looping }, ground arith, ground arith)
sender_take-Goes (suc n) w h e =
    (record w { sender = looping; posted = w.posted + suc n }, ground arith, ground arith)

sender_finish-Goes : (w : World) → Sound w → w.sender ≡ closing → Goes (sender_finish w)
unfolding sender_finish Goes
sender_finish-Goes w h e = (
  record w { muxer = gone; fifo = gone; priv = gone; sender = ended; buf = gone; session = gone },
  ground arith,
  ground arith,
)

exit-cases : (m : MediaStatus) → (m ≡ exit) ⊎ (m ≢ exit)
exit-cases setup = inr (ground arith)
exit-cases play = inr (ground arith)
exit-cases exit = inl refl

sender_test-Goes : (w : World) → Sound w → w.sender ≡ looping → Goes (sender_test w)
unfolding sender_test Goes
sender_test-Goes w h e = elim (exit-cases w.status) [
  | inl m ↦ (record w { sender = closing }, ground arith, ground arith)
  | inr m ↦ (record w { sender = taking }, ground arith, ground arith)
]

step-Goes : (w : World) (o : Option World) → Sound w → Step false w o → Goes o
step-Goes w o h (opens made e p) = subst Goes p (open-Goes made w h e)
step-Goes w o h (registers e p) = subst Goes p (register-Goes w h e)
step-Goes w o h (closes e p) = subst Goes p (close-Goes w h e)
step-Goes w o h (reads e p) = subst Goes p (read-Goes w h e)
step-Goes w o h (starts e k p) = subst Goes p (sender_start-Goes w h e k)
step-Goes w o h (tests e p) = subst Goes p (sender_test-Goes w h e)
step-Goes w o h (takes n e p) = subst Goes p (sender_take-Goes n w h e)
step-Goes w o h (finishes e p) = subst Goes p (sender_finish-Goes w h e)

pub Reached-Sound : (w : World) → Reached false w → Sound w
unfolding Goes
Reached-Sound _ begin = start-Sound
Reached-Sound _ (next w w' r s) =
    let (w2, e, h) = step-Goes w (some w') (Reached-Sound w r) s in
    subst Sound (sym (some-injective w' w2 e)) h

-- Whatever the polling thread and the sending thread of a connection of the web server do, in
-- any interleaving of their pieces of code, neither uses one of the cells that is freed or not set up: the
-- handshake, the callbacks, the close and the broadcasts on one side, the start, the loop and
-- the end of flv_send_proc on the other. The condition: the first sleep of the sending thread
-- ends after the callbacks are registered.
pub no_fault :
    (w : World) (o : Option World) → Reached false w → Step false w o → (w' : World) × (o ≡ some w')
unfolding Goes
no_fault w o r s = let (w', e, h) = step-Goes w o (Reached-Sound w r) s in (w', e)
