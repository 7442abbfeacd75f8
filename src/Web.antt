-- ===== src/Web.antt =====
-- A connection of the web server and its stream: ev_handler and the callbacks of
-- mod/web/src/web/web-http.c, which the polling thread runs, and the media object of web-media.c, whose
-- thread sends. The two threads share the session, the object and its private data; each piece of code
-- between two points where the other thread matters is an operation here. A use of memory that is not
-- there, or not set up, is a fault. The operations are about the memory, the status and the broadcasts:
-- what is sent, and the flags by which a connection is closed, are left out; a close may come at any time.
-- The manager of mongoose, which mg_broadcast uses, is taken to live, and the memory of the session's
-- buffer to stay where it is: that the sending thread may move it while on_media_read sends is left out.
pub mod Listener
mod Life
mod Ending
mod Tests
use freak.Prelude.{
  ℕ, zero, suc, ◌+◌, ◌-◌, ◌≡◌, ◌<◌, Bool, true, false, ◌||◌, not, ◌⊎◌, Option, some, none,
  if◌then◌else◌, ◌==◌,
}
use freak.Proto.{◌>>=◌, ◌>>◌}

-- Memory: before `malloc` or `mbuf_init`, in use, and after `free`.
pub data Cell : Type 0 where
  unset held gone : Cell

-- `MEDIA_STATUS_…` of web-media.c
pub data MediaStatus : Type 0 where
  setup play exit : MediaStatus

-- How far the polling thread is with the connection, and the sending thread with its function.
pub data PollAt : Type 0 where
  idle opened registered closed : PollAt

pub data SenderAt : Type 0 where
  absent asleep looping taking closing ended : SenderAt

-- `web_media_session_t` with its `buf`, `web_media_t`, and `web_media_priv_t` with its ring and its muxer;
-- `known` says whether `snd` is set, `posted` counts the broadcasts that are under way.
pub record World : Type 0 where
  pub user_data : Bool
  pub session : Cell
  pub buf : Cell
  pub obj : Cell
  pub priv : Cell
  pub fifo : Cell
  pub muxer : Cell
  pub status : MediaStatus
  pub known : Bool
  pub posted : ℕ
  pub poll : PollAt
  pub sender : SenderAt

-- A connection before its handshake.
abbrev pub accepted : World
accepted = record {
  user_data = false;
  session = unset;
  buf = unset;
  obj = unset;
  priv = unset;
  fifo = unset;
  muxer = unset;
  status = setup;
  known = false;
  posted = 0;
  poll = idle;
  sender = absent;
}

abbrev pub use_cell : Cell → Option (Unit {0})
use_cell unset = none
use_cell held = some tt
use_cell gone = none

-- MG_EV_WEBSOCKET_HANDSHAKE_DONE as far as `web_createMedia`, which starts the thread; `made` says whether
-- it returns an object. If not, the session is freed at once.
unfoldable pub media_session_new : Bool → World → Option World
media_session_new false w = some w
media_session_new true w = some (record w {
  session = held;
  buf = unset;
  obj = held;
  priv = held;
  fifo = held;
  muxer = unset;
  status = setup;
  known = false;
  poll = opened;
  sender = asleep;
})

-- The rest of it: `__media_regcallback`, and the session is the connection's.
unfoldable pub media_regcallback : World → Option World
media_regcallback w =
    use_cell w.session
    >> use_cell w.obj
    >> use_cell w.priv
    >> some (record w { known = true; status = play; user_data = true; poll = registered })

-- MG_EV_CLOSE: `media_session_del` and `__media_destroy`.
unfoldable pub on_close : World → Option World
on_close w =
    if w.user_data
    then (use_cell w.session
        >> use_cell w.obj
        >> use_cell w.priv
        >> some (record w { status = exit; obj = gone; user_data = false; poll = closed }))
    else some (record w { poll = closed })

-- `on_media_read`, for a broadcast that is under way.
unfoldable pub on_media_read : World → Option World
on_media_read w =
    if w.user_data
    then (use_cell w.session >> use_cell w.buf >> some (record w { posted = w.posted - 1 }))
    else some (record w { posted = w.posted - 1 })

-- `flv_send_proc` up to its loop. The wait for the status ends after one `usleep`.
unfoldable pub sender_start : World → Option World
sender_start w =
    let opening : World = record w { muxer = held; sender = looping } in
    use_cell w.priv
    >> use_cell w.fifo
    >> (if w.known
        then (use_cell w.session >> some (record opening { buf = held }))
        else some opening)

-- The test at the head of the loop.
unfoldable pub sender_test : World → Option World
sender_test w =
    use_cell w.priv
    >> some
        (record w { sender = elim w.status [ exit ↦ closing | setup ↦ taking | play ↦ taking ] })

-- The rest of the loop: a record, of which the muxer writes `n` parts: `web_media_write` and
-- `media_send_proc`.
unfoldable pub sender_take : ℕ → World → Option World
sender_take n w =
    let back : World = record w { sender = looping } in
    use_cell w.priv
    >> use_cell w.fifo
    >> use_cell w.muxer
    >> (if n == 0 || not w.known
        then some back
        else (use_cell w.session >> use_cell w.buf >> some (record back { posted = w.posted + n })))

-- What follows the loop, `media_send_post` in it.
unfoldable pub sender_finish : World → Option World
sender_finish w =
    let freed : World = record w { muxer = gone; fifo = gone; priv = gone; sender = ended } in
    use_cell w.muxer
    >> use_cell w.fifo
    >> use_cell w.priv
    >> (if w.known
        then (use_cell w.session
            >> use_cell w.buf
            >> some (record freed { buf = gone; session = gone }))
        else some freed)

-- The next piece of `flv_send_proc`.
unfoldable pub sender_step : ℕ → World → Option World
sender_step n w = elim w.sender [
  | absent ↦ some w
  | asleep ↦ sender_start w
  | looping ↦ sender_test w
  | taking ↦ sender_take n w
  | closing ↦ sender_finish w
  | ended ↦ some w
]

-- A step of one of the threads, to a state or to a fault. Unless `late`, the sleep of the sending thread
-- ends after the callbacks are registered.
pub data Step (late : Bool) (w : World) (o : Option World) : Type 0 where
  opens : (made : Bool) → w.poll ≡ idle → media_session_new made w ≡ o → Step late w o
  registers : w.poll ≡ opened → media_regcallback w ≡ o → Step late w o
  closes : (w.poll ≡ idle) ⊎ (w.poll ≡ registered) → on_close w ≡ o → Step late w o
  reads : 0 < w.posted → on_media_read w ≡ o → Step late w o
  starts : w.sender ≡ asleep → late || w.known ≡ true → sender_start w ≡ o → Step late w o
  tests : w.sender ≡ looping → sender_test w ≡ o → Step late w o
  takes : (n : ℕ) → w.sender ≡ taking → sender_take n w ≡ o → Step late w o
  finishes : w.sender ≡ closing → sender_finish w ≡ o → Step late w o

-- The states that a connection comes to.
pub data Reached (late : Bool) : World → Type 0 where
  begin : Reached late accepted
  next : (w w' : World) → Reached late w → Step late w (some w') → Reached late w'
