-- ===== src/Web/Listener.antt =====
-- The listening thread of web-http.c: http_server_init, http_server_thread and http_server_uninit.
use freak.Prelude.{ℕ, zero, suc, ◌≡◌, refl, ap, ◌∙◌, Bool, true, false, if◌then◌else◌, arith}

-- `HTTP_SERVER_STATUS_…`
pub data ServerStatus : Type 0 where
  fresh running stopped : ServerStatus

-- Where the thread is: before it binds, in its loop, or at its end.
pub data ThreadAt : Type 0 where
  binding polling over : ThreadAt

pub record Listener : Type 0 where
  pub status : ServerStatus
  pub thread : ThreadAt
  pub mgr_freed : Bool

-- `http_server_init`
unfoldable pub http_server_init : Listener
http_server_init = record { status = fresh; thread = binding; mgr_freed = false }

-- One piece of `http_server_thread`: the start, in which the address is bound if `free`, or a turn of the
-- loop.
unfoldable pub http_server_thread : Bool → Listener → Listener
http_server_thread free l = elim l.thread [
  | binding ↦
      if free then record l { status = running; thread = polling } else record l { thread = over }
  | polling ↦ elim l.status [
    | running ↦ l
    | fresh ↦ record l { thread = over; mgr_freed = true }
    | stopped ↦ record l { thread = over; mgr_freed = true }
  ]
  | over ↦ l
]

-- `http_server_uninit` up to `pthread_join`, which returns when the thread is over.
unfoldable pub http_server_uninit : Listener → Listener
http_server_uninit l = record l { status = stopped }

-- Some pieces of the thread.
abbrev pub turns : Bool → ℕ → Listener → Listener
turns free zero l = l
turns free (suc n) l = turns free n (http_server_thread free l)

over-stays : (free : Bool) (n : ℕ) (l : Listener) → l.thread ≡ over → turns free n l ≡ l
unfolding http_server_thread
over-stays free zero l h = refl
over-stays free (suc n) l h = ground (arith, over-stays free n l h)

polling-stays :
    (free : Bool) (n : ℕ) (l : Listener)
    → l.thread ≡ polling
    → l.status ≡ running
    → turns free n l ≡ l
unfolding http_server_thread
polling-stays free zero l h r = refl
polling-stays free (suc n) l h r = ground (arith, polling-stays free n l h r)

-- After http_server_uninit, the listening thread ends at its next piece of code if it had run
-- one before, so pthread_join returns; if it had not, it sets the status back to RUNNING and
-- polls for ever, unless the address cannot be bound.
pub join_lem :
    (free : Bool) (k n : ℕ)
    → (turns free (suc n) (http_server_uninit (turns free k http_server_init))).thread
      ≡ (if free then (elim k [ zero ↦ polling | suc j ↦ over ]) else over)
unfolding http_server_thread http_server_uninit http_server_init
join_lem false zero n = ap (λ l. l.thread) (over-stays false n _ refl)
join_lem false (suc j) n =
    let bound : Listener = http_server_thread false http_server_init in
    ap (λ l. (turns false (suc n) (http_server_uninit l)).thread) (over-stays false j bound refl)
    ∙ ap (λ l. l.thread) (over-stays false n _ refl)
join_lem true zero n = ap (λ l. l.thread) (polling-stays true n _ refl refl)
join_lem true (suc j) n =
    let bound : Listener = http_server_thread true http_server_init in
    ap (λ l. (turns true (suc n) (http_server_uninit l)).thread)
      (polling-stays true j bound refl refl)
    ∙ ap (λ l. l.thread) (over-stays true n _ refl)
