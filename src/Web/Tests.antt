-- ===== src/Web/Tests.antt =====
-- The theorems on the web server's streams at concrete runs, and the run that loses the race.
use freak.Prelude.{◌≡◌, refl, true, false, inr, none}
use freak.Web.{
  held, gone, play, exit, opened, registered, closed, asleep, looping, taking, World, accepted,
  media_session_new, media_regcallback, on_close, sender_start, sender_test, sender_take, Step,
  opens, registers, closes, starts, tests, takes, Reached, begin, next,
}
use freak.Web.Listener.{polling, http_server_init, http_server_uninit, turns, join_lem}

abbrev opened_world : World
opened_world = record accepted {
  session = held;
  obj = held;
  priv = held;
  fifo = held;
  poll = opened;
  sender = asleep;
}

abbrev joined_world : World
joined_world = record opened_world {
  known = true;
  status = play;
  user_data = true;
  poll = registered;
}

joined-Reached : Reached false joined_world
unfolding media_session_new media_regcallback
joined-Reached =
    next opened_world joined_world (next accepted opened_world begin (opens true refl refl))
      (registers refl refl)

abbrev started_world : World
started_world = record joined_world { buf = held; muxer = held; sender = looping }

abbrev sent_world : World
sent_world = record started_world { posted = 2 }

abbrev left_world : World
left_world = record sent_world { status = exit; obj = gone; user_data = false; poll = closed }

left-Reached : Reached false left_world
unfolding sender_start sender_test sender_take on_close
left-Reached =
    let started = next joined_world started_world joined-Reached (starts refl refl refl) in
    let tested =
      next started_world (record started_world { sender = taking }) started (tests refl refl) in
    let sent = next _ sent_world tested (takes 2 refl refl) in
    next sent_world left_world sent (closes (inr refl) refl)

-- The sending thread's sleep ends before the callbacks are registered: the buffer is never set up, and
-- the first part of a stream goes into it.
abbrev raced_world : World
raced_world = record joined_world { muxer = held; sender = taking }

lost_race : Reached true raced_world × Step true raced_world none
unfolding media_session_new media_regcallback sender_start sender_test sender_take
lost_race =
    let opened_first = next accepted opened_world begin (opens true refl refl) in
    let started : Reached true (record opened_world { muxer = held; sender = looping }) =
      next opened_world _ opened_first (starts refl refl refl) in
    let joined : Reached true (record joined_world { muxer = held; sender = looping }) =
      next _ _ started (registers refl refl) in
    (next _ raced_world joined (tests refl refl), takes 1 refl refl)

-- A server that is stopped before its thread runs polls for ever.
join_lem_example : (turns true 3 (http_server_uninit http_server_init)).thread ≡ polling
join_lem_example = join_lem true 0 2
