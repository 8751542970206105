-- ===== src/Errors/Errno.antt =====
-- The values of Linux's errno.h that src/API.cpp names; EWOULDBLOCK is EAGAIN there.
use agssock.Base.{ℕ}

abbrev pub perm : ℕ
perm = 1

abbrev pub intr : ℕ
intr = 4

abbrev pub badf : ℕ
badf = 9

abbrev pub again : ℕ
again = 11

abbrev pub nomem : ℕ
nomem = 12

abbrev pub acces : ℕ
acces = 13

abbrev pub fault : ℕ
fault = 14

abbrev pub inval : ℕ
inval = 22

abbrev pub nfile : ℕ
nfile = 23

abbrev pub mfile : ℕ
mfile = 24

abbrev pub pipe : ℕ
pipe = 32

abbrev pub proto : ℕ
proto = 71

abbrev pub notsock : ℕ
notsock = 88

abbrev pub destaddrreq : ℕ
destaddrreq = 89

abbrev pub prototype : ℕ
prototype = 91

abbrev pub protonosupport : ℕ
protonosupport = 93

abbrev pub socktnosupport : ℕ
socktnosupport = 94

abbrev pub opnotsupp : ℕ
opnotsupp = 95

abbrev pub afnosupport : ℕ
afnosupport = 97

abbrev pub addrinuse : ℕ
addrinuse = 98

abbrev pub addrnotavail : ℕ
addrnotavail = 99

abbrev pub netdown : ℕ
netdown = 100

abbrev pub netunreach : ℕ
netunreach = 101

abbrev pub netreset : ℕ
netreset = 102

abbrev pub connaborted : ℕ
connaborted = 103

abbrev pub connreset : ℕ
connreset = 104

abbrev pub nobufs : ℕ
nobufs = 105

abbrev pub isconn : ℕ
isconn = 106

abbrev pub notconn : ℕ
notconn = 107

abbrev pub shutdown : ℕ
shutdown = 108

abbrev pub timedout : ℕ
timedout = 110

abbrev pub connrefused : ℕ
connrefused = 111

abbrev pub hostunreach : ℕ
hostunreach = 113

abbrev pub already : ℕ
already = 114

abbrev pub inprogress : ℕ
inprogress = 115
