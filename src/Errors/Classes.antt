-- ===== src/Errors/Classes.antt =====
-- What the codes of `AGSEnumerateError` in src/API.cpp stand for: none, and the errors after which the
-- plug-in tells a script to try again.
use agssock.Base.{ℕ, ◌≡◌, ◌↔◌, ◌||◌, true, ◌==◌, arith}
use agssock.Errors.{enumerate_error, would_block, already, no_error, please_try_again}
use agssock.Errors.Errno

-- Zero is the only error that is reported as none.
pub enumerate_error-no_error : (e : ℕ) → (enumerate_error e ≡ no_error) ↔ (e ≡ 0)
unfolding enumerate_error
enumerate_error-no_error e = ground arith

-- An error is reported as one to try again after exactly when one of the two tests by which the
-- socket functions hide such errors passes, or when it is EINTR, which they do not hide.
pub enumerate_error-retry :
    (e : ℕ)
    → (enumerate_error e ≡ please_try_again)
      ↔ ((would_block e || already e || (e == Errno.intr)) ≡ true)
unfolding enumerate_error
enumerate_error-retry e = ground arith
