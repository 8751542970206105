-- ===== src/Errors.antt =====
-- src/API.cpp and src/API.h: the error codes of the system, and the numbers of the `SockError`
-- enumeration that scripts see.
pub mod Errno
pub mod Classes
pub mod Windows
mod Tests
use Prim.Native.String.{String}
use agssock.Base.{ℕ, Bool, ◌||◌, ◌==◌, if◌then◌else◌, List, [], ◌∷◌, elem}
use Errno

abbrev pub no_error : ℕ
no_error = 0

abbrev pub other_error : ℕ
other_error = 1

abbrev pub access_denied : ℕ
access_denied = 2

abbrev pub address_not_available : ℕ
address_not_available = 3

abbrev pub please_try_again : ℕ
please_try_again = 4

abbrev pub socket_not_valid : ℕ
socket_not_valid = 5

abbrev pub disconnected : ℕ
disconnected = 6

abbrev pub invalid : ℕ
invalid = 7

abbrev pub unsupported : ℕ
unsupported = 8

abbrev pub host_not_reached : ℕ
host_not_reached = 9

abbrev pub not_enough_resources : ℕ
not_enough_resources = 10

abbrev pub network_not_available : ℕ
network_not_available = 11

abbrev pub not_connected : ℕ
not_connected = 12

-- `enum SockError` of the script header in src/Socket.h
abbrev pub sock_errors : List (String × ℕ)
sock_errors =
    ("eSockNoError", no_error)
    ∷ ("eSockOtherError", other_error)
    ∷ ("eSockAccessDenied", access_denied)
    ∷ ("eSockAddressNotAvailable", address_not_available)
    ∷ ("eSockPleaseTryAgain", please_try_again)
    ∷ ("eSockSocketNotValid", socket_not_valid)
    ∷ ("eSockDisconnected", disconnected)
    ∷ ("eSockInvalid", invalid)
    ∷ ("eSockUnsupported", unsupported)
    ∷ ("eSockHostNotReached", host_not_reached)
    ∷ ("eSockNotEnoughResources", not_enough_resources)
    ∷ ("eSockNetworkNotAvailable", network_not_available)
    ∷ ("eSockNotConnected", not_connected)
    ∷ []

-- `WOULD_BLOCK` and `ALREADY`
abbrev pub would_block : ℕ → Bool
would_block e = (e == Errno.again) || (e == Errno.again)

abbrev pub already : ℕ → Bool
already e = (e == Errno.inprogress) || (e == Errno.already)

-- `AGSEnumerateError`: the groups of `case` labels of the switch, in its order.
unfoldable pub enumerate_error : ℕ → ℕ
enumerate_error errnum =
    if errnum == 0
    then no_error
    else if elem errnum (Errno.acces ∷ Errno.perm ∷ [])
    then access_denied
    else if elem errnum (Errno.addrinuse ∷ Errno.addrnotavail ∷ Errno.afnosupport ∷ [])
    then address_not_available
    else if elem errnum (Errno.again ∷ Errno.already ∷ Errno.inprogress ∷ Errno.intr ∷ [])
    then please_try_again
    else if elem errnum (Errno.badf ∷ Errno.notsock ∷ [])
    then socket_not_valid
    else if elem errnum
        (Errno.connaborted ∷ Errno.connrefused ∷ Errno.connreset ∷ Errno.netreset ∷ [])
    then disconnected
    else if elem errnum
        (Errno.destaddrreq ∷ Errno.inval ∷ Errno.prototype ∷ Errno.fault ∷ Errno.isconn ∷ [])
    then invalid
    else if elem errnum
        (Errno.opnotsupp ∷ Errno.proto ∷ Errno.protonosupport ∷ Errno.socktnosupport ∷ [])
    then unsupported
    else if elem errnum (Errno.hostunreach ∷ [])
    then host_not_reached
    else if elem errnum (Errno.mfile ∷ Errno.nfile ∷ Errno.nobufs ∷ Errno.nomem ∷ [])
    then not_enough_resources
    else if elem errnum (Errno.netdown ∷ Errno.netunreach ∷ [])
    then network_not_available
    else if elem errnum (Errno.notconn ∷ Errno.pipe ∷ Errno.shutdown ∷ Errno.timedout ∷ [])
    then not_connected
    else other_error
