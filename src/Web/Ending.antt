-- ===== src/Web/Ending.antt =====
-- The sending thread after the connection is closed, and what it leaves.
use freak.Prelude.{ℕ, ◌+◌, ◌≡◌, ◌≢◌, refl, false, ◌⊎◌, inl, inr, Option, some, arith}
use freak.Proto.{◌>>=◌}
use freak.Web.{
  gone, closed, SenderAt, absent, asleep, looping, taking, closing, ended, World, sender_start,
  sender_test, sender_take, sender_finish, sender_step, Reached,
}
use freak.Web.Life.{Sound, Reached-Sound}

-- Nothing of the session is in use, and nothing was freed twice.
abbrev pub Cleared : World → Type 0
Cleared w =
    (w.session ≡ gone)
    × (w.buf ≡ gone)
    × (w.obj ≡ gone)
    × (w.priv ≡ gone)
    × (w.fifo ≡ gone)
    × (w.muxer ≡ gone)
    × (w.user_data ≡ false)

-- The end of the thread, from a state in which it has not ended.
swept : ℕ → World → World
swept n w = record w {
  session = gone;
  buf = gone;
  priv = gone;
  fifo = gone;
  muxer = gone;
  posted = n;
  sender = ended;
}

closing-ends :
    (n : ℕ) (w : World)
    → Sound w
    → w.poll ≡ closed
    → w.sender ≡ closing
    → sender_step n w ≡ some (swept w.posted w)
unfolding sender_step sender_finish swept
closing-ends n w h p s = ground arith

looping-ends :
    (n : ℕ) (w : World)
    → Sound w
    → w.poll ≡ closed
    → w.sender ≡ looping
    → (sender_step n w >>= sender_step n) ≡ some (swept w.posted w)
unfolding sender_step sender_finish sender_test swept
looping-ends n w h p s = ground arith

taking-ends :
    (n : ℕ) (w : World)
    → Sound w
    → w.poll ≡ closed
    → w.sender ≡ taking
    → (sender_step n w >>= sender_step n >>= sender_step n) ≡ some (swept (w.posted + n) w)
unfolding sender_step sender_finish sender_test sender_take swept
taking-ends n w h p s = ground arith

asleep-ends :
    (n : ℕ) (w : World)
    → Sound w
    → w.poll ≡ closed
    → w.sender ≡ asleep
    → (sender_step n w >>= sender_step n >>= sender_step n) ≡ some (swept w.posted w)
unfolding sender_step sender_finish sender_test sender_start swept
asleep-ends n w h p s = ground arith

-- Three pieces of the thread's code.
abbrev pub three_steps : ℕ → World → Option World
three_steps n w = sender_step n w >>= sender_step n >>= sender_step n

Sender-cases :
    (s : SenderAt)
    → (s ≡ absent)
      ⊎ ((s ≡ asleep) ⊎ ((s ≡ looping) ⊎ ((s ≡ taking) ⊎ ((s ≡ closing) ⊎ (s ≡ ended)))))
Sender-cases absent = inl refl
Sender-cases asleep = inr (inl refl)
Sender-cases looping = inr (inr (inl refl))
Sender-cases taking = inr (inr (inr (inl refl)))
Sender-cases closing = inr (inr (inr (inr (inl refl))))
Sender-cases ended = inr (inr (inr (inr (inr refl))))

-- When a connection that had a stream is closed, wherever the sending thread is, it ends within
-- three of its pieces of code, without a fault of the model, and then the session, its buffer, the media
-- object, its private data, the ring and the muxer are freed, each once. The condition: the
-- first sleep of the sending thread ended after the callbacks were registered.
pub close_ends :
    (n : ℕ) (w : World)
    → Reached false w
    → w.poll ≡ closed
    → w.sender ≢ absent
    → (w' : World) × (three_steps n w ≡ some w') × (w'.sender ≡ ended) × Cleared w'
unfolding sender_step swept
close_ends n w r p a =
    let h : Sound w = Reached-Sound w r in
    elim (Sender-cases w.sender) [
      | inl s ↦ absurd (a s)
      | inr (inl s) ↦ (swept w.posted w, asleep-ends n w h p s, refl, ground arith)
      | inr (inr (inl s)) ↦
          (swept w.posted w, simp (looping-ends n w h p s) refl, refl, ground arith)
      | inr (inr (inr (inl s))) ↦
          (swept (w.posted + n) w, taking-ends n w h p s, refl, ground arith)
      | inr (inr (inr (inr (inl s)))) ↦
          (swept w.posted w, simp (closing-ends n w h p s) refl, refl, ground arith)
      | inr (inr (inr (inr (inr s)))) ↦ (w, ground arith, s, ground arith)
    ]
