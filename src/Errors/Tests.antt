-- ===== src/Errors/Tests.antt =====
-- The error codes of src/API.cpp at single errors.
use agssock.Base.{true, ℕ, ◌≡◌, ◌↔◌, All}
use agssock.Errors.{enumerate_error, no_error, sock_errors}
use agssock.Errors.Windows.{enumerate_wsa}
use agssock.Errors.Windows.Laws.{
  ExactOnPosix, ExactOnWindows, table, is_enumerator, errors_documented,
}

-- EAGAIN on Linux
abbrev eagain : ℕ
eagain = 11

errors_documented_example :
    All (ExactOnPosix eagain) table
    × All (ExactOnWindows eagain) table
    × ((enumerate_error eagain ≡ no_error) ↔ (eagain ≡ 0))
    × ((enumerate_wsa eagain ≡ no_error) ↔ (eagain ≡ 0))
    × (is_enumerator (enumerate_error eagain) sock_errors ≡ true)
    × (is_enumerator (enumerate_wsa eagain) sock_errors ≡ true)
errors_documented_example = errors_documented eagain
