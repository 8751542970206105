-- ===== src/SockAddr/Names.antt =====
-- What the address functions take from the system: the name service of `netdb.h`, and the
-- conversions of `arpa/inet.h`. None of it is part of this repository.
use agssock.Base.{ℕ, Option, List}

pub record Resolver : Type 0 where
  -- Node, service, flags and family of the hint to the bytes of the first address found; `none` is
  -- a failure or an empty answer.
  pub getaddrinfo : List ℕ → List ℕ → ℕ → ℕ → Option (List ℕ)
  -- The bytes of an address from its text (family first), and the text from the bytes.
  pub inet_pton : ℕ → List ℕ → Option (List ℕ)
  pub inet_ntop : ℕ → List ℕ → List ℕ
  -- The host and the service of an address, and the host alone; `none` is a failure.
  pub getnameinfo : List ℕ → Option (List ℕ × List ℕ)
  pub getnameinfo_host : List ℕ → Option (List ℕ)
