-- ===== src/Socket/System/Script.antt =====
-- Scripts that call the functions of src/Socket.cpp, beside the read loop of src/Pool.cpp.
use agssock.Base.{ℕ, ◌<◌, ◌≡◌, Bool, false, Option, some, List, All}
use agssock.Api.Os.{Os, done}
use agssock.Objects.{Socket}
use agssock.Buffer.Ends.{NoZeroFront}
use agssock.Pool.{new_pool}
use agssock.Pool.Open.{IsOpenAt}
use agssock.Pool.Reading.{IsUsable}
use agssock.Pool.System.{Phase, stopped, System, after_start, LoopStep}
use agssock.World.{World}
use agssock.Socket.Send.{send_impl, sendto_impl}
use agssock.Socket.Receive.{Reply, recv, recv_data, recv_from, recv_data_from}
use agssock.Socket.Connect.{connect, bind, accept, close, dispose}
use agssock.Socket.Create.{create, listen, get_local, get_remote}
use agssock.Socket.Saved.{Keys, restore}
use agssock.Socket.System.{view, aborts, Fresh}

module _ {K : Type 0} (os : Os K) (capacity : ℕ) where
  -- What a script, or the engine for it, calls. A socket that is connected or bound is open, with a
  -- descriptor that fits into an `fd_set`, and so are the connections that the system gives. More can be read of what is connected or bound, and a buffer
  -- that is read as a string has no chunk that begins with a zero.
  pub data ScriptCall (w : World K) : World K → Type 0 where
    creates : (domain type protocol : ℕ) → ScriptCall w (create os domain type protocol w).1
    restores :
        (keys : Keys) (left : List ℕ) (key : ℕ) (buffer : List ℕ)
        → ScriptCall w (restore keys left key buffer w)
    connects :
        {w' : World K} (p addr : ℕ) (async r : Bool)
        → IsUsable w.sockets p
        → IsOpenAt w.sockets p
        → connect os capacity p addr async w ≡ some (r, w')
        → ScriptCall w w'
    binds :
        {w' : World K} (p addr : ℕ) (r : Bool)
        → IsUsable w.sockets p
        → IsOpenAt w.sockets p
        → bind os capacity p addr w ≡ some (r, w')
        → ScriptCall w w'
    accepts :
        {w' : World K} (p : ℕ) (r : Option ℕ)
        → ((id : Option ℕ) (k : K) (conn : ℕ) → (os.accept id k).0 ≡ done conn → conn < 1024)
        → accept os capacity p w ≡ some (r, w')
        → ScriptCall w w'
    listens :
        {w' : World K} (p backlog : ℕ) (r : Bool)
        → listen os p backlog w ≡ some (r, w')
        → ScriptCall w w'
    sends :
        {w' : World K} (p : ℕ) (text : List ℕ) (r : Bool)
        → send_impl os p text w ≡ some (r, w')
        → ScriptCall w w'
    sends_to :
        {w' : World K} (p addr : ℕ) (text : List ℕ) (r : Bool)
        → sendto_impl os p addr text w ≡ some (r, w')
        → ScriptCall w w'
    receives :
        {w' : World K} (p : ℕ) (r : Reply) (sock : Socket)
        → w.sockets p ≡ some sock
        → All NoZeroFront sock.incoming.queue
        → recv os p w ≡ some (r, w')
        → ScriptCall w w'
    receives_data :
        {w' : World K} (p : ℕ) (r : Reply) (sock : Socket)
        → w.sockets p ≡ some sock
        → recv_data os p w ≡ some (r, w')
        → ScriptCall w w'
    receives_from :
        {w' : World K} (left : List ℕ) (p addr : ℕ) (r : Reply)
        → recv_from os left p addr w ≡ some (r, w')
        → ScriptCall w w'
    receives_data_from :
        {w' : World K} (p addr : ℕ) (r : Reply)
        → recv_data_from os p addr w ≡ some (r, w')
        → ScriptCall w w'
    asks_local : {w' : World K} (p a : ℕ) → get_local os p w ≡ some (a, w') → ScriptCall w w'
    asks_remote : {w' : World K} (p a : ℕ) → get_remote os p w ≡ some (a, w') → ScriptCall w w'
    closes : {w' : World K} (p : ℕ) → close os capacity p w ≡ some w' → ScriptCall w w'
    disposes : {w' : World K} (p : ℕ) → dispose os capacity p w ≡ some w' → ScriptCall w w'

  -- The worlds that scripts, the read loop and the network reach in any order, from one with an
  -- empty pool. A call is one step here: the loop takes its locked parts before it or after it.
  pub data Live (beacon : ℕ) : World K → Phase → Type 0 where
    begins :
        (w : World K) → w.pool ≡ new_pool → aborts w.calls ≡ false → Fresh w → Live beacon w stopped
    calls :
        {w w' : World K} {phase : Phase}
        → Live beacon w phase
        → ScriptCall w w'
        → Live beacon w' (after_start w.pool.thread w'.pool.thread phase)
    turns :
        {w : World K} {phase : Phase} {t : System K}
        → Live beacon w phase
        → LoopStep os capacity beacon (view w phase) t
        → Live beacon (record w { pool = t.pool; sockets = t.heap; kernel = t.kernel }) t.phase
    moves :
        {w : World K} {phase : Phase}
        → Live beacon w phase
        → (k : K) → Live beacon (record w { kernel = k }) phase
