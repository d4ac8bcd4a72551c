-- ===== src/Server/Loop/Accepting.antt =====
-- What the events of the listening socket and of the standard input do, if the loop goes on.
use mathlib.Core.Path.{subst}
use tcp_chat_server.Prelude.{
  ℕ, ◌≡◌, ◌∙◌, refl, sym, ap, Option, none, some, List, [], ◌∷◌, Bool, true, false, ◌||◌, inl, inr,
  Option-cases,
}
use tcp_chat_server.Database.{Sqlite}
use tcp_chat_server.Server.Startup.{Fcntl, set_nonblocking_fd}
use tcp_chat_server.Server.Table.{Table, register_connection, add_connection}
use tcp_chat_server.Server.Session.{Server}
use tcp_chat_server.Server.Loop.{Accepted, accept_all_connections, listening, console, handle_event}

-- The connections in the table, one after the other.
unfoldable pub register_all : Table → List Accepted → Table
register_all t [] = t
register_all t (a ∷ rest) = register_all (register_connection t a.connfd a.added) rest

-- `fcntl` fails, and the process ends.
abbrev blocks : Option ℕ → Bool
blocks none = true
blocks (some flags) = false

abbrev pub stays_blocking : Fcntl → Bool
stays_blocking fcntl = blocks (set_nonblocking_fd fcntl)

abbrev pub any_blocking : List Accepted → Bool
any_blocking [] = false
any_blocking (a ∷ rest) = stays_blocking a.fcntl || any_blocking rest

pub or_false : (a b : Bool) → (a || b) ≡ false → (a ≡ false) × (b ≡ false)
or_false true b h = cc
or_false false b h = (refl, h)

module _ (t : Table) (a : Accepted) (rest : List Accepted) (failed : Bool) where
  next_accepted :
      (flags : ℕ)
      → set_nonblocking_fd a.fcntl ≡ some flags
      → accept_all_connections t (a ∷ rest) failed
        ≡ accept_all_connections (register_connection t a.connfd a.added) rest failed
  unfolding accept_all_connections add_connection
  next_accepted flags set = rw (accept_all_connections, add_connection, set) refl

  exit_accepting :
      set_nonblocking_fd a.fcntl ≡ none → accept_all_connections t (a ∷ rest) failed ≡ none
  unfolding accept_all_connections add_connection
  exit_accepting ended = rw (accept_all_connections, add_connection, ended) refl

pub accept_all_connections_added :
    (t t' : Table) (accepted : List Accepted) (failed : Bool)
    → accept_all_connections t accepted failed ≡ some t'
    → register_all t accepted ≡ t'
unfolding accept_all_connections register_all
accept_all_connections_added t t' [] true e = cc
accept_all_connections_added t t' [] false e = cc
accept_all_connections_added t t' (a ∷ rest) failed e =
    elim (Option-cases (set_nonblocking_fd a.fcntl)) [
      | inl ended ↦ let no : none ≡ some t' = sym (exit_accepting t a rest failed ended) ∙ e in cc
      | inr (flags, set) ↦
          accept_all_connections_added (register_connection t a.connfd a.added) t' rest failed
            (sym (next_accepted t a rest failed flags set) ∙ e)
    ]

pub accept_all_connections_returns :
    (t : Table) (accepted : List Accepted) (failed : Bool)
    → (failed || any_blocking accepted) ≡ false
    → accept_all_connections t accepted failed ≡ some (register_all t accepted)
unfolding accept_all_connections register_all
accept_all_connections_returns t [] true safe = cc
accept_all_connections_returns t [] false safe = refl
accept_all_connections_returns t (a ∷ rest) true safe = cc
accept_all_connections_returns t (a ∷ rest) false safe =
    let (own, later) = or_false (stays_blocking a.fcntl) (any_blocking rest) safe in
    elim (Option-cases (set_nonblocking_fd a.fcntl)) [
      | inl ended ↦ (let no : true ≡ false = ap blocks (sym ended) ∙ own in cc)
      | inr (flags, set) ↦
          next_accepted t a rest false flags set
          ∙ accept_all_connections_returns (register_connection t a.connfd a.added) rest false later
    ]

module _ (sqlite : Sqlite) where
  open sqlite use {State}

  pub handle_event_added :
      (error failed : Bool) (accepted : List Accepted) (s s' : Server State)
      → handle_event sqlite (listening error accepted failed) s ≡ some s'
      → record s { table = register_all s.table accepted } ≡ s'
  unfolding handle_event
  handle_event_added true failed accepted s s' e = cc
  handle_event_added false failed accepted s s' e =
      elim (Option-cases (accept_all_connections s.table accepted failed)) [
        | inl ended ↦ (let no : none ≡ some s' = rw ended at e in cc)
        | inr (t, returned) ↦
            let same : record s { table = t } ≡ s' =
              (let f : some (record s { table = t }) ≡ some s' = rw returned at e in cc) in
            let all = accept_all_connections_added s.table t accepted failed returned in
            subst (λ u. record s { table = u } ≡ s') (sym all) same
      ]

  pub handle_event_returns :
      (error failed : Bool) (accepted : List Accepted) (s : Server State)
      → (error || (failed || any_blocking accepted)) ≡ false
      → handle_event sqlite (listening error accepted failed) s
        ≡ some (record s { table = register_all s.table accepted })
  unfolding handle_event
  handle_event_returns true failed accepted s safe = cc
  handle_event_returns false failed accepted s safe =
      rw (accept_all_connections_returns s.table accepted failed safe) refl

  pub handle_event_console :
      (error : Bool) (chunks : List (List ℕ)) (s s' : Server State)
      → handle_event sqlite (console error chunks) s ≡ some s'
      → s ≡ s'
  unfolding handle_event
  handle_event_console true chunks s s' e = cc
  handle_event_console false chunks s s' e = cc
