-- ===== src/Api/Beacon.antt =====
-- `AGSSockAPI::Beacon` of src/API.cpp: a pipe, by the number of bytes in it. Both ends do not block,
-- so a write to a full pipe is lost and a read from an empty one ends the loop.
use agssock.Base.{ℕ, zero, suc, ◌+◌, ◌-◌, ◌≤◌, ◌<◌, min, ◌≡◌, arith, ltb, ◌==◌, if◌then◌else◌}

pub record Beacon : Type 0 where
  pub pending : ℕ

abbrev pub new_beacon : Beacon
new_beacon = record { pending = 0 }

-- `signal` writes the one byte of the literal `""` if the pipe has room for it.
unfoldable pub signal : ℕ → Beacon → Beacon
signal capacity b = if ltb b.pending capacity then record { pending = b.pending + 1 } else b

-- `while (read(data.fd[0], buffer, 8) > 0);` on fuel
drain : ℕ → ℕ → ℕ
drain zero n = n
drain (suc fuel) n = let rest = drain fuel (n - min 8 n) in if n == 0 then 0 else rest

-- One round for each byte is enough: see `reset_empties`.
unfoldable pub reset : Beacon → Beacon
unfolding drain
reset b = record { pending = drain b.pending b.pending }

drain-zero : (fuel n : ℕ) → n ≤ fuel → drain fuel n ≡ 0
unfolding drain
drain-zero zero n h = omega arith
drain-zero (suc fuel) n h = ground (arith, drain-zero fuel (n - min 8 n))

-- A reset reads the pipe empty: the loop ends within the rounds that the model gives it.
pub reset_empties : (b : Beacon) → (reset b).pending ≡ 0
unfolding reset
reset_empties b = drain-zero b.pending b.pending (omega arith)

-- After a signal the pipe can be read, also if it was full.
pub signal_pending : (capacity : ℕ) (b : Beacon) → 0 < capacity → 0 < (signal capacity b).pending
unfolding signal
signal_pending capacity b h = ground arith
