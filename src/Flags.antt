-- ===== src/Flags.antt =====
-- `ConnFlags` of include/shared.hpp and its operators in src/shared.cpp: a mask of eight bits.
pub mod Laws
use tcp_chat_server.Prelude.{ℕ, ◌-◌, Bool, not, ◌==◌, bit_and, bit_or}

-- `ConnFlags`, by its underlying `uint8_t`.
abbrev pub ConnFlags : Type 0
ConnFlags = ℕ

abbrev pub no_flags : ConnFlags
no_flags = 0

abbrev pub want_read : ConnFlags
want_read = 1

abbrev pub want_write : ConnFlags
want_write = 2

abbrev pub want_close : ConnFlags
want_close = 4

abbrev pub is_active : ConnFlags
is_active = 8

abbrev pub is_auth : ConnFlags
is_auth = 16

-- `operator|`, which `operator|=` assigns.
unfoldable pub flags_or : ConnFlags → ConnFlags → ConnFlags
flags_or lhs rhs = bit_or lhs rhs

-- `operator&`, which `operator&=` assigns.
unfoldable pub flags_and : ConnFlags → ConnFlags → ConnFlags
flags_and lhs rhs = bit_and lhs rhs

-- `operator~`: the complement of the promoted `int`, cast back to eight bits.
unfoldable pub flags_not : ConnFlags → ConnFlags
flags_not flag = 255 - flag

unfoldable pub has_flag : ConnFlags → ConnFlags → Bool
has_flag mask flag = not (bit_and mask flag == 0)

-- `current_flags |= WANT_READ; current_flags &= ~WANT_WRITE;`
unfoldable pub to_reading : ConnFlags → ConnFlags
unfolding flags_or flags_and flags_not
to_reading flags = flags_and (flags_or flags want_read) (flags_not want_write)

-- `current_flags &= ~WANT_READ; current_flags |= WANT_WRITE;`
unfoldable pub to_writing : ConnFlags → ConnFlags
unfolding flags_or flags_and flags_not
to_writing flags = flags_or (flags_and flags (flags_not want_read)) want_write

-- `current_flags |= WANT_CLOSE;`
unfoldable pub to_closing : ConnFlags → ConnFlags
unfolding flags_or
to_closing flags = flags_or flags want_close

-- `flags |= IS_AUTH`
unfoldable pub to_auth : ConnFlags → ConnFlags
unfolding flags_or
to_auth flags = flags_or flags is_auth
