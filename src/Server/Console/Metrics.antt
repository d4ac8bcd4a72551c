-- ===== src/Server/Console/Metrics.antt =====
-- The counts of `log_server_metrics` of src/server_utils.cpp against a plain count of the flags.
use tcp_chat_server.Prelude.{
  ℕ, zero, suc, ◌+◌, ◌≡◌, refl, ◌∙◌, List, [], ◌∷◌, false, get_or, if◌then◌else◌, Bool-cases, inl,
  inr, arith,
}
use tcp_chat_server.Flags.{ConnFlags, no_flags, has_flag, is_active, is_auth}
use tcp_chat_server.Server.Table.{Table}
use tcp_chat_server.Server.Table.Layout.{IsSlot, IsTable}
use tcp_chat_server.Server.Console.{Counts, count_connections, log_server_metrics}

-- The number of slots with a flag.
abbrev pub count_flag : ConnFlags → List ConnFlags → ℕ
count_flag flag [] = 0
count_flag flag (f ∷ fs) =
    let rest = count_flag flag fs in if has_flag f flag then 1 + rest else rest

auth_active : (f : ConnFlags) → IsSlot f → has_flag f is_active ≡ false → has_flag f is_auth ≡ false
auth_active f s idle = rw (s.idle idle) (unfold has_flag in refl)

abbrev counts : ℕ → ℕ → Counts
counts connected auth = record { num_connected = connected; num_auth = auth }

same : {a b c d : ℕ} → a ≡ b → c ≡ d → counts a c ≡ counts b d
same e f = cc

counted :
    (fs : List ConnFlags) (c : Counts)
    → ((i : ℕ) → IsSlot (get_or fs i no_flags))
    → count_connections fs c ≡ record {
      num_connected = c.num_connected + count_flag is_active fs;
      num_auth = c.num_auth + count_flag is_auth fs;
    }
unfolding count_connections
counted [] c slots = ground arith
counted (f ∷ fs) c slots = elim (Bool-cases (has_flag f is_active)) [
  | inr idle ↦ rw (idle, auth_active f (slots zero) idle) (counted fs c (λ i. slots (suc i)))
  | inl active ↦ elim (Bool-cases (has_flag f is_auth)) [
    | inl auth ↦
        rw (active, auth)
          (counted fs (record { num_connected = c.num_connected + 1; num_auth = c.num_auth + 1 })
              (λ i. slots (suc i))
            ∙ same (omega arith) (omega arith))
    | inr guest ↦
        rw (active, guest)
          (counted fs (record c { num_connected = c.num_connected + 1 }) (λ i. slots (suc i))
            ∙ same (omega arith) refl)
  ]
]

-- In a well-formed table the two numbers of `log_server_metrics` are the number of slots with
-- IS_ACTIVE and the number of slots with IS_AUTH.
log_server_metrics-counts :
    (t : Table)
    → IsTable t
    → log_server_metrics t.conns ≡ record {
      num_connected = count_flag is_active t.conns.flags;
      num_auth = count_flag is_auth t.conns.flags;
    }
unfolding log_server_metrics
log_server_metrics-counts t v =
    counted t.conns.flags (counts 0 0) v.slot ∙ same (omega arith) (omega arith)
