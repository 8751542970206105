-- ===== src/Errors/Windows.antt =====
-- The error codes of src/API.cpp and src/API.h where `_WIN32` is defined: `ERR(x)` is `WSAEx` there,
-- and the labels in `NOT_WIN` are left out.
pub mod Wsa
pub mod Laws
use agssock.Base.{ℕ, Bool, ◌||◌, ◌==◌, if◌then◌else◌, [], ◌∷◌, elem}
use agssock.Errors.{
  no_error, other_error, access_denied, address_not_available, please_try_again, socket_not_valid,
  disconnected, invalid, unsupported, host_not_reached, not_enough_resources, network_not_available,
  not_connected,
}
use Wsa

-- `WOULD_BLOCK` and `ALREADY`
abbrev pub would_block_wsa : ℕ → Bool
would_block_wsa e = e == Wsa.wouldblock

abbrev pub already_wsa : ℕ → Bool
already_wsa e = (e == Wsa.already) || (e == Wsa.inval) || (e == Wsa.wouldblock)

-- `AGSEnumerateError`
unfoldable pub enumerate_wsa : ℕ → ℕ
enumerate_wsa errnum =
    if errnum == 0
    then no_error
    else if elem errnum (Wsa.acces ∷ [])
    then access_denied
    else if elem errnum (Wsa.addrinuse ∷ Wsa.addrnotavail ∷ Wsa.afnosupport ∷ [])
    then address_not_available
    else if elem errnum (Wsa.wouldblock ∷ Wsa.already ∷ Wsa.inprogress ∷ Wsa.intr ∷ [])
    then please_try_again
    else if elem errnum (Wsa.badf ∷ Wsa.notsock ∷ [])
    then socket_not_valid
    else if elem errnum (Wsa.connaborted ∷ Wsa.connrefused ∷ Wsa.connreset ∷ Wsa.netreset ∷ [])
    then disconnected
    else if elem errnum (Wsa.destaddrreq ∷ Wsa.inval ∷ Wsa.prototype ∷ Wsa.fault ∷ Wsa.isconn ∷ [])
    then invalid
    else if elem errnum (Wsa.opnotsupp ∷ Wsa.protonosupport ∷ Wsa.socktnosupport ∷ [])
    then unsupported
    else if elem errnum (Wsa.hostunreach ∷ [])
    then host_not_reached
    else if elem errnum (Wsa.mfile ∷ Wsa.nobufs ∷ [])
    then not_enough_resources
    else if elem errnum (Wsa.netdown ∷ Wsa.netunreach ∷ [])
    then network_not_available
    else if elem errnum (Wsa.notconn ∷ Wsa.shutdown ∷ Wsa.timedout ∷ [])
    then not_connected
    else other_error
