-- ===== src/Socket/Fields/Laws.antt =====
-- The tag and the error of a socket, as scripts see them.
use agssock.Base.{ℕ, ◌≡◌, refl, ◌≢◌, some, List, [], ◌∷◌, c_str, arith}
use agssock.Objects.{Socket}
use agssock.World.{World, script_string, store, asks}
use agssock.Socket.Fields.{get_tag, set_tag, get_valid, error_value}

c_str-c_str : (s : List ℕ) → c_str (c_str s) ≡ c_str s
c_str-c_str [] = refl
c_str-c_str (x ∷ xs) = ground (arith, c_str-c_str xs)

module _ {K : Type 0} where
  -- A tag is read back as the string that was set, and neither the validity of a socket, nor its
  -- error, nor another socket changes with it.
  pub get_tag-set_tag :
      (p other : ℕ) (str : List ℕ) (sock : Socket) (w : World K)
      → w.sockets p ≡ some sock
      → p ≢ other
      → (w' w'' : World K) × (set_tag p str w ≡ some w')
        × (get_tag p w' ≡ some (c_str str, w''))
        × (w''.sockets ≡ w'.sockets)
        × (get_valid p w' ≡ get_valid p w)
        × (error_value p w' ≡ error_value p w)
        × (w'.sockets other ≡ w.sockets other)
  unfolding get_tag set_tag get_valid error_value
  get_tag-set_tag p other str sock w at ne =
      let sock' : Socket = record sock { tag = c_str str } in
      let w' : World K = store w p sock' in
      let at' : w'.sockets p ≡ some sock' = ground arith in
      (
        w',
        asks w' (script_string (c_str str)),
        rw (at, set_tag) refl,
        rw (at', get_tag) (rw (c_str-c_str str) refl),
        refl,
        rw (at', get_valid) (rw (at, get_valid) refl),
        rw (at', error_value) (rw (at, error_value) refl),
        ground arith,
      )
