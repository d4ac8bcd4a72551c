-- ===== src/Server/Loop/Invariant.antt =====
-- The event loop keeps the connection table well formed.
use tcp_chat_server.Prelude.{
  ℕ, zero, suc, ◌≡◌, refl, ◌∙◌, List, [], ◌∷◌, Bool, true, false, ◌||◌, ltb, length, if◌then◌else◌,
  Bool-cases, inl, inr,
}
use tcp_chat_server.Protocol.Message.{buf_append, buf_consume}
use tcp_chat_server.Flags.{has_flag, is_active, want_read, want_write, want_close}
use tcp_chat_server.Database.{Sqlite}
use tcp_chat_server.Server.Table.{
  Table, flags_of, incoming_of, outgoing_of, set_incoming, set_outgoing, reading, writing, closing,
  register_connection, remove_connection,
}
use tcp_chat_server.Server.Table.Layout.{
  IsTable, Evolves, Evolves-refl, Evolves-trans, set_incoming-Evolves, set_outgoing-Evolves,
  set_connection_state-Evolves, flag_active, remove_connection-IsTable,
}
use tcp_chat_server.Server.Table.Growth.{register_connection-IsTable}
use tcp_chat_server.Server.Session.{Server, try_one_request}
use tcp_chat_server.Server.Session.Keeps.{try_one_request-Evolves}
use tcp_chat_server.Server.Loop.Accepting.{register_all}
use tcp_chat_server.Server.Loop.{
  Accepted, Reads, Writes, ReadEnd, would_block, read_error, end_of_file, append_chunks,
  write_counts, handle_write_connection, serve_requests, start_writing, end_reading,
  handle_read_connection, handle_connection,
}

pub append_chunks-Evolves :
    (t : Table) (connfd : ℕ) (chunks : List (List ℕ))
    → IsTable t
    → Evolves t (append_chunks t connfd chunks)
unfolding append_chunks
append_chunks-Evolves t connfd [] v = Evolves-refl t v
append_chunks-Evolves t connfd (chunk ∷ chunks) v =
    let e =
      set_incoming-Evolves t v connfd (buf_append (incoming_of t connfd) chunk (length chunk)) in
    Evolves-trans t _ _ e (
      append_chunks-Evolves
        (set_incoming t connfd (buf_append (incoming_of t connfd) chunk (length chunk))) connfd
        chunks e.valid)

pub write_counts-Evolves :
    (t : Table) (connfd : ℕ) (counts : List ℕ) (failed : Bool)
    → IsTable t
    → has_flag (flags_of t connfd) is_active ≡ true
    → Evolves t (write_counts t connfd counts failed)
unfolding write_counts
write_counts-Evolves t connfd [] false v active = Evolves-refl t v
write_counts-Evolves t connfd [] true v active =
    set_connection_state-Evolves t v connfd closing active
write_counts-Evolves t connfd (n ∷ counts) failed v active =
    let u = set_outgoing t connfd (buf_consume (outgoing_of t connfd) n) in
    let e = set_outgoing-Evolves t v connfd (buf_consume (outgoing_of t connfd) n) in
    elim (Bool-cases (ltb 0 (length (outgoing_of u connfd)))) [
      | inl more ↦
          rw more
            (Evolves-trans t u _ e (write_counts-Evolves u connfd counts failed e.valid active))
      | inr empty ↦
          rw empty
            (Evolves-trans t u _ e (set_connection_state-Evolves u e.valid connfd reading active))
    ]

pub register_all-IsTable :
    (t : Table) (accepted : List Accepted) → IsTable t → IsTable (register_all t accepted)
unfolding register_all
register_all-IsTable t [] v = v
register_all-IsTable t (a ∷ rest) v =
    register_all-IsTable (register_connection t a.connfd a.added) rest
      (register_connection-IsTable t a.connfd a.added v)

module _ (sqlite : Sqlite) where
  open sqlite use {State}

  pub serve_requests-Evolves :
      (fuel connfd : ℕ) (s : Server State)
      → IsTable s.table
      → has_flag (flags_of s.table connfd) is_active ≡ true
      → Evolves s.table (serve_requests sqlite fuel connfd s).table
  unfolding serve_requests
  serve_requests-Evolves zero connfd s v active = Evolves-refl s.table v
  serve_requests-Evolves (suc fuel) connfd s v active =
      let s' = (try_one_request sqlite connfd s).1 in
      let e = try_one_request-Evolves sqlite connfd s v active in
      elim (Bool-cases (try_one_request sqlite connfd s).0) [
        | inl served ↦ rw served (
            Evolves-trans s.table s'.table _ e
              (serve_requests-Evolves fuel connfd s' e.valid (e.actives connfd ∙ active)))
        | inr stopped ↦ rw stopped e
      ]

  start_writing-Evolves :
      (connfd : ℕ) (s : Server State)
      → IsTable s.table
      → has_flag (flags_of s.table connfd) is_active ≡ true
      → Evolves s.table (start_writing sqlite connfd s).table
  unfolding start_writing
  start_writing-Evolves connfd s v active =
      elim (Bool-cases (ltb 0 (length (outgoing_of s.table connfd)))) [
        | inl more ↦ rw more (set_connection_state-Evolves s.table v connfd writing active)
        | inr empty ↦ rw empty (Evolves-refl s.table v)
      ]

  end_reading-Evolves :
      (connfd : ℕ) (ending : ReadEnd) (s : Server State)
      → IsTable s.table
      → has_flag (flags_of s.table connfd) is_active ≡ true
      → Evolves s.table (end_reading sqlite connfd ending s).table
  unfolding end_reading
  end_reading-Evolves connfd would_block s v active =
      let fuel = suc (length (incoming_of s.table connfd)) in
      let e = serve_requests-Evolves fuel connfd s v active in
      let s' = serve_requests sqlite fuel connfd s in
      Evolves-trans s.table s'.table _ e
        (start_writing-Evolves connfd s' e.valid (e.actives connfd ∙ active))
  end_reading-Evolves connfd read_error s v active =
      set_connection_state-Evolves s.table v connfd closing active
  end_reading-Evolves connfd end_of_file s v active =
      set_connection_state-Evolves s.table v connfd closing active

  pub handle_read_connection-Evolves :
      (connfd : ℕ) (reads : Reads) (s : Server State)
      → IsTable s.table
      → has_flag (flags_of s.table connfd) is_active ≡ true
      → Evolves s.table (handle_read_connection sqlite connfd reads s).table
  unfolding handle_read_connection
  handle_read_connection-Evolves connfd reads s v active =
      let e = append_chunks-Evolves s.table connfd reads.chunks v in
      Evolves-trans s.table (append_chunks s.table connfd reads.chunks) _ e
        (end_reading-Evolves connfd reads.ending _ e.valid (e.actives connfd ∙ active))

  abbrev pub if_reading : ℕ → Reads → Server State → Server State
  if_reading fd reads s =
      if has_flag (flags_of s.table fd) want_read
      then handle_read_connection sqlite fd reads s
      else s

  pub if_reading-IsTable :
      (fd : ℕ) (reads : Reads) (s : Server State)
      → IsTable s.table
      → IsTable (if_reading fd reads s).table
  if_reading-IsTable fd reads s v = elim (Bool-cases (has_flag (flags_of s.table fd) want_read)) [
    | inl read ↦
        let active = flag_active s.table v fd want_read (unfold has_flag in refl) read in
        rw read (handle_read_connection-Evolves fd reads s v active).valid
    | inr idle ↦ rw idle v
  ]

  abbrev pub if_writing : ℕ → Writes → Server State → Server State
  if_writing fd writes s =
      if has_flag (flags_of s.table fd) want_write
      then record s { table = handle_write_connection s.table fd writes }
      else s

  if_writing-IsTable :
      (fd : ℕ) (writes : Writes) (s : Server State)
      → IsTable s.table
      → IsTable (if_writing fd writes s).table
  unfolding handle_write_connection
  if_writing-IsTable fd writes s v = elim (Bool-cases (has_flag (flags_of s.table fd) want_write)) [
    | inl write ↦
        let active = flag_active s.table v fd want_write (unfold has_flag in refl) write in
        rw write (write_counts-Evolves s.table fd writes.counts writes.failed v active).valid
    | inr idle ↦ rw idle v
  ]

  abbrev pub if_closing : ℕ → Bool → Server State → Server State
  if_closing fd error s =
      if error || has_flag (flags_of s.table fd) want_close
      then record s { table = remove_connection s.table fd }
      else s

  if_closing-IsTable :
      (fd : ℕ) (error : Bool) (s : Server State)
      → IsTable s.table
      → IsTable (if_closing fd error s).table
  if_closing-IsTable fd error s v =
      elim (Bool-cases (error || has_flag (flags_of s.table fd) want_close)) [
        | inl close ↦ rw close (remove_connection-IsTable s.table v fd)
        | inr stay ↦ rw stay v
      ]

  pub handle_connection-IsTable :
      (fd : ℕ) (error : Bool) (reads : Reads) (writes : Writes) (s : Server State)
      → IsTable s.table
      → IsTable (handle_connection sqlite fd error reads writes s).table
  unfolding handle_connection
  handle_connection-IsTable fd error reads writes s v =
      let s1 = if_reading fd reads s in
      let s2 = if_writing fd writes s1 in
      if_closing-IsTable fd error s2
        (if_writing-IsTable fd writes s1 (if_reading-IsTable fd reads s v))
