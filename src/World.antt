-- ===== src/World.antt =====
-- The state that the socket functions of src/Socket.cpp work on: the kernel and `errno`, the objects
-- that the plug-in has allocated, the pool, and what the engine has been asked to do. A function
-- gives `none` where C++ leaves the behaviour undefined, as for a dangling pointer.
use agssock.Base.{ℕ, Option, none, some, List, ◌∷◌, if◌then◌else◌}
use agssock.Api.Os.{Os, Result, done, failed}
use agssock.Objects.{Socket, Heap, update}
use agssock.SockAddr.{SockAddr}
use agssock.Pool.{Pool, add, remove, is_operating}

-- The calls of the engine, with the object or the bytes that they are made for.
pub data Call : Type 0 where
  register_socket register_addr hold release : ℕ → Call
  restore_socket : ℕ → ℕ → Call
  register_data script_string : List ℕ → Call
  abort_game : Call

pub record World (K : Type 0) : Type 0 where
  pub kernel : K
  pub errno : ℕ
  pub sockets : Heap
  pub addrs : ℕ → Option SockAddr
  pub next : ℕ
  pub pool : Pool
  pub calls : List Call

infixl 5 ◌>>=◌
abbrev pub ◌>>=◌ : {A B : Type 0} → Option A → (A → Option B) → Option B
none >>= f = none
some a >>= f = f a

abbrev pub errno_after : {A : Type 0} → Result A → ℕ → ℕ
errno_after (done a) e = e
errno_after (failed e') e = e'

module _ {K : Type 0} where
  -- A system call.
  abbrev pub sys : {A : Type 0} → (K → Result A × K) → World K → Result A × World K
  sys call w =
      let (r, k) = call w.kernel in (r, record w { kernel = k; errno = errno_after r w.errno })

  abbrev pub store : World K → ℕ → Socket → World K
  store w p sock = record w { sockets = update w.sockets p (some sock) }

  abbrev pub asks : World K → Call → World K
  asks w c = record w { calls = c ∷ w.calls }

  -- `AGSAbort`, whose call of the engine returns
  abbrev pub abort : World K → World K
  abort w = asks w abort_game

  -- `pool->add`, `pool->remove` and `CheckPoolInvariant`
  unfoldable pub pool_add : Os K → ℕ → World K → ℕ → World K
  pool_add os capacity w p = record w { pool = add capacity (os.thread_starts w.kernel) p w.pool }

  unfoldable pub pool_remove : ℕ → World K → ℕ → World K
  pool_remove capacity w p = record w { pool = remove capacity p w.pool }

  unfoldable pub check_pool_invariant : World K → Option (World K)
  check_pool_invariant w = do
    operating ← is_operating w.sockets w.pool
    some (if operating then w else abort w)
