-- ===== src/Errors/Windows/Wsa.antt =====
-- The values of winsock2.h that src/API.cpp names, where it writes `ERR(x)` on Windows.
use agssock.Base.{ℕ}

abbrev pub intr : ℕ
intr = 10004

abbrev pub badf : ℕ
badf = 10009

abbrev pub acces : ℕ
acces = 10013

abbrev pub fault : ℕ
fault = 10014

abbrev pub inval : ℕ
inval = 10022

abbrev pub mfile : ℕ
mfile = 10024

abbrev pub wouldblock : ℕ
wouldblock = 10035

abbrev pub inprogress : ℕ
inprogress = 10036

abbrev pub already : ℕ
already = 10037

abbrev pub notsock : ℕ
notsock = 10038

abbrev pub destaddrreq : ℕ
destaddrreq = 10039

abbrev pub prototype : ℕ
prototype = 10041

abbrev pub protonosupport : ℕ
protonosupport = 10043

abbrev pub socktnosupport : ℕ
socktnosupport = 10044

abbrev pub opnotsupp : ℕ
opnotsupp = 10045

abbrev pub afnosupport : ℕ
afnosupport = 10047

abbrev pub addrinuse : ℕ
addrinuse = 10048

abbrev pub addrnotavail : ℕ
addrnotavail = 10049

abbrev pub netdown : ℕ
netdown = 10050

abbrev pub netunreach : ℕ
netunreach = 10051

abbrev pub netreset : ℕ
netreset = 10052

abbrev pub connaborted : ℕ
connaborted = 10053

abbrev pub connreset : ℕ
connreset = 10054

abbrev pub nobufs : ℕ
nobufs = 10055

abbrev pub isconn : ℕ
isconn = 10056

abbrev pub notconn : ℕ
notconn = 10057

abbrev pub shutdown : ℕ
shutdown = 10058

abbrev pub timedout : ℕ
timedout = 10060

abbrev pub connrefused : ℕ
connrefused = 10061

abbrev pub hostunreach : ℕ
hostunreach = 10065
