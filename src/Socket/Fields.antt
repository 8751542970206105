-- ===== src/Socket/Fields.antt =====
-- The small functions of src/Socket.cpp on one socket: its validity, tag, error and options, with
-- `AGSFormatError` of src/API.cpp.
pub mod Laws
use agssock.Base.{ℕ, Bool, true, false, Option, none, some, List, c_str}
use agssock.Errors.{enumerate_error}
use agssock.Objects.{Socket}
use agssock.World.{World, script_string, ◌>>=◌, store, asks}

-- The texts of `strerror` are the system's.
unfoldable pub format_error : {K : Type 0} → (ℕ → List ℕ) → ℕ → World K → List ℕ × World K
format_error strerror errnum w =
    (c_str (strerror errnum), asks w (script_string (c_str (strerror errnum))))

-- The same on Windows, where `FormatMessage` may fail: the null pointer that it leaves is no string.
unfoldable pub format_wsa :
    {K : Type 0} → (ℕ → Option (List ℕ)) → ℕ → World K → Option (List ℕ × World K)
format_wsa format_message errnum w = do
  msg ← format_message errnum
  some (c_str msg, asks w (script_string (c_str msg)))

module _ {K : Type 0} where
  unfoldable pub get_valid : ℕ → World K → Option Bool
  get_valid p w = do sock ← w.sockets p; some (elim sock.id [ none ↦ false | some fd ↦ true ])

  unfoldable pub get_tag : ℕ → World K → Option (List ℕ × World K)
  get_tag p w = do
    sock ← w.sockets p
    some (c_str sock.tag, asks w (script_string (c_str sock.tag)))

  -- The script's string ends at its first zero.
  unfoldable pub set_tag : ℕ → List ℕ → World K → Option (World K)
  set_tag p str w = do sock ← w.sockets p; some (store w p (record sock { tag = c_str str }))

  unfoldable pub error_value : ℕ → World K → Option ℕ
  unfolding enumerate_error
  error_value p w = do sock ← w.sockets p; some (enumerate_error sock.error)

  unfoldable pub error_string : (ℕ → List ℕ) → ℕ → World K → Option (List ℕ × World K)
  unfolding format_error
  error_string strerror p w = do sock ← w.sockets p; some (format_error strerror sock.error w)

  -- `Socket_GetOption` and `Socket_SetOption` are not implemented there either.
  unfoldable pub get_option : ℕ → ℕ → ℕ → World K → ℕ
  get_option p level option w = 0

  unfoldable pub set_option : ℕ → ℕ → ℕ → ℕ → World K → World K
  set_option p level option value w = w
