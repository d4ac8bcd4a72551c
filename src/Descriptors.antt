-- ===== src/Descriptors.antt =====
-- Which descriptors a sequence of the system calls that the sources make leaves open: what `socket`,
-- `pipe`, `epoll_create1` and `close` do with them.
use tcp_chat_server.Prelude.{◌≡◌, refl, ℕ, List, [], ◌∷◌, ◌++◌, ◌==◌, true, arith, if◌then◌else◌}

-- A call that gives a descriptor, and a `close` of one that succeeds.
pub data Call : Type 0 where
  opens closes : ℕ → Call

unfoldable pub remove : ℕ → List ℕ → List ℕ
remove fd [] = []
remove fd (x ∷ xs) = let rest = remove fd xs in if x == fd then xs else x ∷ rest

-- The descriptors that are open after the calls, the newest first, if these were open before.
unfoldable pub held : List Call → List ℕ → List ℕ
unfolding remove
held [] fds = fds
held (opens fd ∷ calls) fds = held calls (fd ∷ fds)
held (closes fd ∷ calls) fds = held calls (remove fd fds)

pub held-append :
    (calls more : List Call) (fds : List ℕ) → held (calls ++ more) fds ≡ held more (held calls fds)
unfolding held
held-append [] more fds = refl
held-append (opens fd ∷ calls) more fds = held-append calls more (fd ∷ fds)
held-append (closes fd ∷ calls) more fds = held-append calls more (remove fd fds)

pub remove-head : (fd : ℕ) (fds : List ℕ) → remove fd (fd ∷ fds) ≡ fds
unfolding remove
remove-head fd fds = let same : (fd == fd) ≡ true = ground arith in rw same
