-- ===== src/Objects.antt =====
-- `Socket` of src/Socket.h, and the store of such objects: a pointer is a number, and `none` at a
-- pointer means that nothing is allocated there.
use agssock.Base.{ℕ, ◌≡◌, ◌≢◌, Option, List, arith, ◌==◌, if◌then◌else◌}
use agssock.Buffer.{Buffer}

abbrev pub sock_stream : ℕ
sock_stream = 1

abbrev pub sock_dgram : ℕ
sock_dgram = 2

-- An `id` of `none` is INVALID_SOCKET, -1. The other numbers are `int`s as bit patterns.
pub record Socket : Type 0 where
  pub id : Option ℕ
  pub domain : ℕ
  pub type : ℕ
  pub protocol : ℕ
  pub error : ℕ
  pub local : Option ℕ
  pub remote : Option ℕ
  pub tag : List ℕ
  pub incoming : Buffer

abbrev pub Heap : Type 0
Heap = ℕ → Option Socket

abbrev pub update {ℓ} : {A : Type ℓ} → (ℕ → A) → ℕ → A → ℕ → A
update f p a q = if p == q then a else f q

pub update_self {ℓ} : {A : Type ℓ} (f : ℕ → A) (i : ℕ) (x : A) → update f i x i ≡ x
update_self f i x = ground arith

pub update_other {ℓ} : {A : Type ℓ} (f : ℕ → A) (i j : ℕ) (x : A) → i ≢ j → update f i x j ≡ f j
update_other f i j x ne = ground arith
