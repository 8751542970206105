-- ===== src/Api/Mutex.antt =====
-- `AGSSockAPI::Mutex` of src/API.h, with its `Lock` of a scope, and threads that share a state which
-- they change only in scopes with a `Lock` of one mutex, statement by statement and in any order.
pub mod Atomic
pub mod Ends
use agssock.Objects.{update}
use agssock.Base.{ℕ, ◌≡◌, Option, none, some, ◌==◌, if◌then◌else◌}

-- The thread that has locked the mutex, if there is one.
pub record Mutex : Type 0 where
  pub holder : Option ℕ

abbrev pub new_mutex : Mutex
new_mutex = record { holder = none }

-- The constructor of `Lock`. `none` stands for a call that waits.
unfoldable pub lock : ℕ → Mutex → Option Mutex
lock i m = elim m.holder [ none ↦ some (record { holder = some i }) | some j ↦ none ]

-- The destructor of `Lock`
unfoldable pub unlock : Mutex → Mutex
unlock m = record { holder = none }

-- What threads do: `S` is the state that they share, `L` what a thread knows outside the scopes, and
-- `I` what it knows in one, with the place of the next statement. Outside, a thread changes only what
-- it knows itself. Where it has locked the mutex, it may look at the shared state.
pub record Program (S L I : Type 0) : Type 1 where
  pub moves : ℕ → L → L → Type 0
  pub enters : ℕ → S → L → I → Type 0
  pub works : ℕ → S → I → S → I → Type 0
  pub leaves : ℕ → I → L → Type 0

pub data Place (L I : Type 0) : Type 0 where
  outside : L → Place L I
  inside : I → Place L I

pub record Threads (S L I : Type 0) : Type 0 where
  pub mutex : Mutex
  pub shared : S
  pub place : ℕ → Place L I

module _ {S L I : Type 0} (p : Program S L I) where
  -- One statement of one thread
  pub data Step (c : Threads S L I) : Threads S L I → Type 0 where
    moves :
        (i : ℕ) (l l' : L)
        → c.place i ≡ outside l
        → p.moves i l l'
        → Step c (record c { place = update c.place i (outside l') })
    enters :
        (i : ℕ) (l : L) (x : I) (m : Mutex)
        → c.place i ≡ outside l
        → lock i c.mutex ≡ some m
        → p.enters i c.shared l x
        → Step c (record c { mutex = m; place = update c.place i (inside x) })
    works :
        (i : ℕ) (x x' : I) (s : S)
        → c.place i ≡ inside x
        → p.works i c.shared x s x'
        → Step c (record c { shared = s; place = update c.place i (inside x') })
    leaves :
        (i : ℕ) (x : I) (l : L)
        → c.place i ≡ inside x
        → p.leaves i x l
        → Step c (record c { mutex = unlock c.mutex; place = update c.place i (outside l) })

  -- From where all threads are outside
  pub data Reach (s : S) (locals : ℕ → L) : Threads S L I → Type 0 where
    starts :
        Reach s locals (record { mutex = new_mutex; shared = s; place = λ i. outside (locals i) })
    later : {c d : Threads S L I} → Reach s locals c → Step c d → Reach s locals d
