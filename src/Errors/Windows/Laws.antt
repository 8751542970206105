-- ===== src/Errors/Windows/Laws.antt =====
-- The table in the comment above `AGSEnumerateError` of src/API.cpp, for both kinds of system.
use Prim.Native.String.{String}
use agssock.Base.{
  Bool, false, ℕ, ◌≡◌, ◌↔◌, true, Option, none, some, List, [], ◌∷◌, elem, arith, All, ◌⊎◌, ◌==◌,
  ◌||◌,
}
use agssock.Errors.{
  sock_errors, enumerate_error, no_error, access_denied, address_not_available, please_try_again,
  socket_not_valid, disconnected, invalid, unsupported, host_not_reached, not_enough_resources,
  network_not_available, not_connected,
}
use agssock.Errors.Errno
use agssock.Errors.Classes.{enumerate_error-no_error}
use agssock.Errors.Windows.{enumerate_wsa, already_wsa}
use agssock.Errors.Windows.Wsa

-- A line of the table: the code, and the names, each as the number that it has on Linux and on
-- Windows, if it has one there.
abbrev pub Line : Type 0
Line = ℕ × List (ℕ × Option ℕ)

abbrev pub on_posix : List (ℕ × Option ℕ) → List ℕ
on_posix [] = []
on_posix ((e, w) ∷ rest) = e ∷ on_posix rest

abbrev pub on_windows : List (ℕ × Option ℕ) → List ℕ
on_windows [] = []
on_windows ((e, none) ∷ rest) = on_windows rest
on_windows ((e, some w) ∷ rest) = w ∷ on_windows rest

abbrev pub table : List Line
table =
    (access_denied, (Errno.acces, some Wsa.acces) ∷ (Errno.perm, none) ∷ [])
    ∷ (
      address_not_available,
      (Errno.addrinuse, some Wsa.addrinuse)
          ∷ (Errno.addrnotavail, some Wsa.addrnotavail)
          ∷ (Errno.afnosupport, some Wsa.afnosupport)
          ∷ [],
    )
    ∷ (
      please_try_again,
      (Errno.again, none)
          ∷ (Errno.again, some Wsa.wouldblock)
          ∷ (Errno.already, some Wsa.already)
          ∷ (Errno.inprogress, some Wsa.inprogress)
          ∷ (Errno.intr, some Wsa.intr)
          ∷ [],
    )
    ∷ (socket_not_valid, (Errno.badf, some Wsa.badf) ∷ (Errno.notsock, some Wsa.notsock) ∷ [])
    ∷ (
      disconnected,
      (Errno.connaborted, some Wsa.connaborted)
          ∷ (Errno.connrefused, some Wsa.connrefused)
          ∷ (Errno.connreset, some Wsa.connreset)
          ∷ (Errno.netreset, some Wsa.netreset)
          ∷ [],
    )
    ∷ (
      invalid,
      (Errno.destaddrreq, some Wsa.destaddrreq)
          ∷ (Errno.inval, some Wsa.inval)
          ∷ (Errno.prototype, some Wsa.prototype)
          ∷ (Errno.fault, some Wsa.fault)
          ∷ (Errno.isconn, some Wsa.isconn)
          ∷ [],
    )
    ∷ (
      unsupported,
      (Errno.opnotsupp, some Wsa.opnotsupp)
          ∷ (Errno.proto, none)
          ∷ (Errno.protonosupport, some Wsa.protonosupport)
          ∷ (Errno.socktnosupport, some Wsa.socktnosupport)
          ∷ [],
    )
    ∷ (host_not_reached, (Errno.hostunreach, some Wsa.hostunreach) ∷ [])
    ∷ (
      not_enough_resources,
      (Errno.mfile, some Wsa.mfile)
          ∷ (Errno.nfile, none)
          ∷ (Errno.nobufs, some Wsa.nobufs)
          ∷ (Errno.nomem, none)
          ∷ [],
    )
    ∷ (
      network_not_available,
      (Errno.netdown, some Wsa.netdown) ∷ (Errno.netunreach, some Wsa.netunreach) ∷ [],
    )
    ∷ (
      not_connected,
      (Errno.notconn, some Wsa.notconn)
          ∷ (Errno.pipe, none)
          ∷ (Errno.shutdown, some Wsa.shutdown)
          ∷ (Errno.timedout, some Wsa.timedout)
          ∷ [],
    )
    ∷ []

-- A line is exact: an error has its code if and only if the line names it.
abbrev pub ExactOnPosix : ℕ → Line → Type 0
ExactOnPosix e line = (enumerate_error e ≡ line.0) ↔ (elem e (on_posix line.1) ≡ true)

abbrev pub ExactOnWindows : ℕ → Line → Type 0
ExactOnWindows e line = (enumerate_wsa e ≡ line.0) ↔ (elem e (on_windows line.1) ≡ true)

posix_lines : (e : ℕ) → All (ExactOnPosix e) table
unfolding enumerate_error
posix_lines e = ground arith

windows_lines : (e : ℕ) → All (ExactOnWindows e) table
unfolding enumerate_wsa
windows_lines e = ground arith

windows_no_error : (e : ℕ) → (enumerate_wsa e ≡ no_error) ↔ (e ≡ 0)
unfolding enumerate_wsa
windows_no_error e = ground arith

-- Whether a number is the value of an enumerator
abbrev pub is_enumerator : ℕ → List (String × ℕ) → Bool
is_enumerator n [] = false
is_enumerator n ((x, v) ∷ rest) = (n == v) || is_enumerator n rest

posix_enumerator : (e : ℕ) → is_enumerator (enumerate_error e) sock_errors ≡ true
unfolding enumerate_error
posix_enumerator e = ground arith

windows_enumerator : (e : ℕ) → is_enumerator (enumerate_wsa e) sock_errors ≡ true
unfolding enumerate_wsa
windows_enumerator e = ground arith

-- Each line of the comment's table is exact on both kinds of system: an error has the code of the line
-- if and only if the line names it, so an error that both systems know has one code. On both, 0 alone
-- is reported as no error, and every code is one that the script header declares in `SockError`.
pub errors_documented :
    (e : ℕ)
    → All (ExactOnPosix e) table
      × All (ExactOnWindows e) table
      × ((enumerate_error e ≡ no_error) ↔ (e ≡ 0))
      × ((enumerate_wsa e ≡ no_error) ↔ (e ≡ 0))
      × (is_enumerator (enumerate_error e) sock_errors ≡ true)
      × (is_enumerator (enumerate_wsa e) sock_errors ≡ true)
errors_documented e = (
  posix_lines e,
  windows_lines e,
  enumerate_error-no_error e,
  windows_no_error e,
  posix_enumerator e,
  windows_enumerator e,
)

-- Where Windows differs: an error that `connect` is told to pass over there need not be one that a
-- script is told to try again after.
pub already_wsa-retry :
    (e : ℕ) → already_wsa e ≡ true → (e ≡ Wsa.inval) ⊎ (enumerate_wsa e ≡ please_try_again)
unfolding enumerate_wsa
already_wsa-retry e h = ground arith
