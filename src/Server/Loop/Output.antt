-- ===== src/Server/Loop/Output.antt =====
-- The output of a connection is not forgotten from one event to the next.
use tcp_chat_server.Prelude.{
  ℕ, ◌≡◌, ◌∙◌, refl, inl, inr, sym, ap, Bool, true, false, ◌==◌, ◌&&◌, ◌||◌, ltb, length,
  get_or-set, Bool-cases,
}
use tcp_chat_server.Flags.{has_flag, is_active, want_read, want_write, want_close, no_flags}
use tcp_chat_server.Database.{Sqlite}
use tcp_chat_server.Server.Table.{Table, flags_of, remove_connection}
use tcp_chat_server.Server.Table.Layout.{IsTable, flag_active}
use tcp_chat_server.Server.Table.Drains.{Drains}
use tcp_chat_server.Server.Session.{Server}
use tcp_chat_server.Server.Loop.{Reads, Writes, handle_write_connection, handle_connection}
use tcp_chat_server.Server.Loop.Invariant.{
  if_reading, if_writing, if_closing, if_reading-IsTable, handle_read_connection-Evolves,
  write_counts-Evolves,
}
use tcp_chat_server.Server.Loop.Pending.{handle_read_connection-Drains, write_counts-Drains}

-- Every open connection waits to write, or has nothing to write.
abbrev pub AllDrain : Table → Type 0
AllDrain t = (j : ℕ) → has_flag (flags_of t j) is_active ≡ true → Drains t j

module _ (sqlite : Sqlite) where
  open sqlite use {State}

  reading-AllDrain :
      (fd : ℕ) (reads : Reads) (s : Server State)
      → IsTable s.table
      → AllDrain s.table
      → AllDrain (if_reading sqlite fd reads s).table
  reading-AllDrain fd reads s v all = elim (Bool-cases (has_flag (flags_of s.table fd) want_read)) [
    | inl read ↦
        let active = flag_active s.table v fd want_read (unfold has_flag in refl) read in
        let e = handle_read_connection-Evolves sqlite fd reads s v active in
        rw read (λ j open_after.
          handle_read_connection-Drains sqlite fd j reads s v active
            (all j (sym (e.actives j) ∙ open_after)))
    | inr idle ↦ rw idle all
  ]

  writing-AllDrain :
      (fd : ℕ) (writes : Writes) (s : Server State)
      → IsTable s.table
      → AllDrain s.table
      → AllDrain (if_writing sqlite fd writes s).table
  unfolding handle_write_connection
  writing-AllDrain fd writes s v all =
      elim (Bool-cases (has_flag (flags_of s.table fd) want_write)) [
        | inl write ↦
            let active = flag_active s.table v fd want_write (unfold has_flag in refl) write in
            let e = write_counts-Evolves s.table fd writes.counts writes.failed v active in
            rw write (λ j open_after.
              write_counts-Drains writes.counts s.table fd j writes.failed v
                (all j (sym (e.actives j) ∙ open_after)))
        | inr idle ↦ rw idle all
      ]

  removed-AllDrain : (t : Table) (fd : ℕ) → AllDrain t → AllDrain (remove_connection t fd)
  unfolding remove_connection
  removed-AllDrain t fd all j open_after =
      let mask = get_or-set t.conns.flags fd j no_flags no_flags in
      elim (Bool-cases (fd == j && ltb fd (length t.conns.flags))) [
        | inl own ↦
            let cleared : flags_of (remove_connection t fd) j ≡ 0 = rw own at mask in
            let idle : has_flag (flags_of (remove_connection t fd) j) is_active ≡ false =
              ap (λ f. has_flag f is_active) cleared ∙ unfold has_flag in refl in
            cc
        | inr other ↦
            let same : flags_of (remove_connection t fd) j ≡ flags_of t j = rw other at mask in
            let was : has_flag (flags_of t j) is_active ≡ true =
              ap (λ f. has_flag f is_active) (sym same) ∙ open_after in
            elim (all j was) [
              | inl waits ↦ inl (ap (λ f. has_flag f want_write) same ∙ waits)
              | inr empty ↦ inr empty
            ]
      ]

  closing-AllDrain :
      (fd : ℕ) (error : Bool) (s : Server State)
      → AllDrain s.table
      → AllDrain (if_closing sqlite fd error s).table
  closing-AllDrain fd error s all =
      elim (Bool-cases (error || has_flag (flags_of s.table fd) want_close)) [
        | inl close ↦ rw close (removed-AllDrain s.table fd all)
        | inr stay ↦ rw stay all
      ]

  -- No output is forgotten: if in a well-formed table every open connection waits to write or has
  -- nothing to write, then this is so again after any event of any connection, whatever was received
  -- in it, whomever its requests were answered or passed on to, and whatever the system calls
  -- returned.
  pub handle_connection-AllDrain :
      (fd : ℕ) (error : Bool) (reads : Reads) (writes : Writes) (s : Server State)
      → IsTable s.table
      → AllDrain s.table
      → AllDrain (handle_connection sqlite fd error reads writes s).table
  unfolding handle_connection
  handle_connection-AllDrain fd error reads writes s v all =
      let s1 = if_reading sqlite fd reads s in
      let v1 = if_reading-IsTable sqlite fd reads s v in
      let s2 = if_writing sqlite fd writes s1 in
      closing-AllDrain fd error s2
        (writing-AllDrain fd writes s1 v1 (reading-AllDrain fd reads s v all))
