-- ===== src/Server/Startup/Sockets.antt =====
-- What the search for a listening socket leaves open.
use tcp_chat_server.Prelude.{
  ◌≡◌, ◌∙◌, refl, ap, ℕ, Option, none, some, List, [], ◌∷◌, ◌++◌, Bool, true, false, All,
}
use tcp_chat_server.Descriptors.{Call, closes, held, held-append, remove-head}
use tcp_chat_server.Server.Startup.{
  Fcntl, set_nonblocking_fd, Address, no_socket, binds, refuses, Search, bound, nothing_suitable,
  search_addresses, Opened, minus_one, exits, listens, Opening, after_search, start_listening,
  open_listenfd,
}

-- `close` succeeds where it is called.
abbrev pub Closes : Address → Type 0
Closes no_socket = Unit
Closes (binds fd) = Unit
Closes (refuses fd closed) = closed ≡ true

-- The first socket that `bind` takes.
abbrev pub first_bound : List Address → Option ℕ
first_bound [] = none
first_bound (no_socket ∷ addresses) = first_bound addresses
first_bound (binds fd ∷ addresses) = some fd
first_bound (refuses fd closed ∷ addresses) = first_bound addresses

abbrev searched : Option ℕ → Search
searched none = nothing_suitable
searched (some fd) = bound fd

abbrev one_open : Option ℕ → List ℕ
one_open none = []
one_open (some fd) = fd ∷ []

abbrev pub opened_first : Option ℕ → ℕ → Opened
opened_first none flags = minus_one
opened_first (some fd) flags = listens fd flags

search_found :
    (addresses : List Address)
    → All Closes addresses
    → (search_addresses addresses).1 ≡ searched (first_bound addresses)
unfolding search_addresses
search_found [] ok = refl
search_found (no_socket ∷ addresses) (first, more) = search_found addresses more
search_found (binds fd ∷ addresses) (first, more) = refl
search_found (refuses fd true ∷ addresses) (first, more) = search_found addresses more
search_found (refuses fd false ∷ addresses) (first, more) = cc

search_held :
    (addresses : List Address)
    → All Closes addresses
    → held (search_addresses addresses).0 [] ≡ one_open (first_bound addresses)
unfolding search_addresses held
search_held [] ok = refl
search_held (no_socket ∷ addresses) (first, more) = search_held addresses more
search_held (binds fd ∷ addresses) (first, more) = refl
search_held (refuses fd true ∷ addresses) (first, more) =
    ap (held (search_addresses addresses).0) (remove-head fd []) ∙ search_held addresses more
search_held (refuses fd false ∷ addresses) (first, more) = cc

-- What `open_listenfd` may leave behind: one descriptor, if it returns it, or none, if it returns
-- -1; and so many lists of addresses are freed. If the process ends, it does not matter.
abbrev pub Clean : ℕ → Opening → Type 0
Clean lists opening = elim opening.opened [
  | minus_one ↦ (held opening.calls [] ≡ []) × (opening.frees ≡ lists)
  | exits ↦ Unit
  | listens fd flags ↦ (held opening.calls [] ≡ fd ∷ []) × (opening.frees ≡ lists)
]

-- How many lists of addresses `getaddrinfo` has handed out.
abbrev pub lists_of : Option (List Address) → ℕ
lists_of none = 0
lists_of (some addresses) = 1

-- `close` succeeds where it is called, for all addresses that `getaddrinfo` has found.
abbrev pub AllClose : Option (List Address) → Type 0
AllClose none = Unit
AllClose (some addresses) = All Closes addresses

start_listening-Clean :
    (calls : List Call) (fd : ℕ) (flags : Option ℕ) (listen_result : Bool)
    → held calls [] ≡ fd ∷ []
    → Clean 1 (start_listening calls fd flags listen_result)
unfolding start_listening
start_listening-Clean calls fd none listen_result e = tt
start_listening-Clean calls fd (some flags) true e = (e, refl)
start_listening-Clean calls fd (some flags) false e =
    let closed : held (calls ++ (closes fd ∷ [])) [] ≡ [] =
      held-append calls (closes fd ∷ []) []
      ∙ (ap (held (closes fd ∷ [])) e ∙ (unfold held in remove-head fd [])) in
    (closed, refl)

after_search-Clean :
    (calls : List Call) (found : Option ℕ) (fcntl : Fcntl) (listen_result : Bool)
    → held calls [] ≡ one_open found
    → Clean 1 (after_search calls (searched found) fcntl listen_result)
unfolding after_search
after_search-Clean calls none fcntl listen_result e = (e, refl)
after_search-Clean calls (some fd) fcntl listen_result e =
    start_listening-Clean calls fd (set_nonblocking_fd fcntl) listen_result e

-- If every `close` succeeds, then whichever other calls fail, also `getaddrinfo`, `open_listenfd`
-- leaves nothing behind where it returns: if it returns -1,
-- every socket that it has opened is closed; if it returns a descriptor, that is the only one open;
-- and in both cases the list of addresses is freed once if `getaddrinfo` has handed one out, and
-- otherwise nothing is freed.
pub open_listenfd-Clean :
    (addresses : Option (List Address)) (fcntl : Fcntl) (listen_result : Bool)
    → AllClose addresses
    → Clean (lists_of addresses) (open_listenfd addresses fcntl listen_result)
unfolding open_listenfd held
open_listenfd-Clean none fcntl listen_result ok = (refl, refl)
open_listenfd-Clean (some addresses) fcntl listen_result ok =
    let found = first_bound addresses in
    rw (search_found addresses ok) (
      after_search-Clean (search_addresses addresses).0 found fcntl listen_result
        (search_held addresses ok))

after_search_sets :
    (calls : List Call) (found : Option ℕ) (fcntl : Fcntl) (flags : ℕ)
    → set_nonblocking_fd fcntl ≡ some flags
    → (after_search calls (searched found) fcntl true).opened ≡ opened_first found flags
unfolding after_search start_listening
after_search_sets calls none fcntl flags set = refl
after_search_sets calls (some fd) fcntl flags set =
    ap (λ o. (start_listening calls fd o true).opened) set

-- The first address to which a socket can be bound is the one: it becomes non-blocking and listens.
open_listenfd_first :
    (addresses : List Address) (fcntl : Fcntl) (flags : ℕ)
    → All Closes addresses
    → set_nonblocking_fd fcntl ≡ some flags
    → (open_listenfd (some addresses) fcntl true).opened
      ≡ opened_first (first_bound addresses) flags
unfolding open_listenfd
open_listenfd_first addresses fcntl flags ok set =
    rw (search_found addresses ok)
      (after_search_sets (search_addresses addresses).0 (first_bound addresses) fcntl flags set)
