-- ===== src/App/Cycle.antt =====
-- Enabling an algorithm and disabling it again.
use freak.Prelude.{ℕ, ◌≡◌, ◌≤◌}
use freak.Memory.{Heap}
use freak.Memory.Counting.{count}

-- No object lives whose number is yet to come.
abbrev pub Fresh : Heap → Type 0
Fresh w = (k : ℕ) → w.next ≤ k → count k w.live ≡ 0
