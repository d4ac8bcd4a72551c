-- ===== src/Server/Broadcast/Delivery.antt =====
-- What the loops of `handle_broadcast_message` do to the connection table.
use tcp_chat_server.Prelude.{
  ℕ, zero, suc, ◌+◌, ◌<◌, ◌≡◌, refl, ap, ◌∙◌, List, [], ◌++◌, Bool, true, false, not, ◌&&◌, ◌==◌,
  ltb, leb, if◌then◌else◌, length, get_or-set, get_or_out, Bool-cases, inl, inr, ltb→le, arith,
}
use tcp_chat_server.Flags.{no_flags, has_flag, is_active, is_auth, to_writing}
use tcp_chat_server.Flags.Laws.{to_writing-Flags}
use tcp_chat_server.Server.Table.{
  Table, flags_of, outgoing_of, set_outgoing, set_connection_state, writing,
}
use tcp_chat_server.Server.Table.Layout.{
  IsTable, Evolves, Evolves-refl, Evolves-trans, set_outgoing-Evolves, set_connection_state-Evolves,
  flag_active,
}
use tcp_chat_server.Server.Broadcast.{is_valid_recipient, deliver, deliver_world}

-- The slots that `chosen` picks get the bytes behind what they had to send, and go over to writing;
-- every other slot is as it was, and so are all incoming buffers, user ids and usernames.
pub record Sent (chosen : ℕ → Bool) (serialized : List ℕ) (t t' : Table) : Type 0 where
  pub outgoing :
      (j : ℕ)
      → outgoing_of t' j ≡ (if chosen j then outgoing_of t j ++ serialized else outgoing_of t j)
  pub masks :
      (j : ℕ) → flags_of t' j ≡ (if chosen j then to_writing (flags_of t j) else flags_of t j)
  pub incoming : t'.conns.incoming_buffers ≡ t.conns.incoming_buffers
  pub user_ids : t'.conns.user_ids ≡ t.conns.user_ids
  pub usernames : t'.conns.usernames ≡ t.conns.usernames
  pub evolves : Evolves t t'

pub auth_active :
    (t : Table) (v : IsTable t) (i : ℕ)
    → has_flag (flags_of t i) is_auth ≡ true
    → has_flag (flags_of t i) is_active ≡ true
auth_active t v i h = flag_active t v i is_auth (unfold has_flag in refl) h

pub auth_lt :
    (t : Table) (i : ℕ) → has_flag (flags_of t i) is_auth ≡ true → i < length t.conns.flags
auth_lt t i h = elim (Bool-cases (ltb i (length t.conns.flags))) [
  | inl small ↦ ground arith
  | inr large ↦
      let out : flags_of t i ≡ 0 = get_or_out t.conns.flags i no_flags (ltb→le i _ large) in
      let unset : has_flag (flags_of t i) is_auth ≡ false = rw out (unfold has_flag in refl) in cc
]

module _ (t : Table) (v : IsTable t) (i : ℕ) (serialized : List ℕ)
    (auth : has_flag (flags_of t i) is_auth ≡ true) where
  -- One recipient.
  pub deliver-Sent : Sent (λ j. i == j) serialized t (deliver t i serialized)
  unfolding deliver set_connection_state
  deliver-Sent =
      let inside = auth_lt t i auth in
      let filled = set_outgoing t i (outgoing_of t i ++ serialized) in
      let e = set_outgoing-Evolves t v i (outgoing_of t i ++ serialized) in
      record {
        outgoing = λ j. ground (
          arith,
          get_or-set t.conns.outgoing_buffers i j (outgoing_of t i ++ serialized) [],
          v.outgoing_size,
        );
        masks =
            λ j. ground (arith, get_or-set t.conns.flags i j (to_writing (flags_of t i)) no_flags);
        incoming = refl;
        user_ids = refl;
        usernames = refl;
        evolves =
            Evolves-trans t filled _ e
              (set_connection_state-Evolves filled e.valid i writing (auth_active t v i auth));
      }

abbrev pub from_to : ℕ → ℕ → ℕ → Bool
from_to i rounds j = leb i j && ltb j (i + rounds)

pub and_true : (a b : Bool) → (a && b) ≡ true → a ≡ true
and_true true b h = refl
and_true false b h = cc

pub valid_auth :
    (t : Table) (connfd i : ℕ)
    → is_valid_recipient t connfd i ≡ true
    → has_flag (flags_of t i) is_auth ≡ true
valid_auth t connfd i h =
    unfold is_valid_recipient in and_true (has_flag (flags_of t i) is_auth) _ h

pub auth-Sent :
    (chosen : ℕ → Bool) (serialized : List ℕ) (t t' : Table) (j : ℕ)
    → IsTable t
    → Sent chosen serialized t t'
    → has_flag (flags_of t' j) is_auth ≡ has_flag (flags_of t j) is_auth
auth-Sent chosen serialized t t' j v sent = elim (Bool-cases (chosen j)) [
  | inl picked ↦
      let mask : flags_of t' j ≡ to_writing (flags_of t j) = rw picked at (sent.masks j) in
      rw mask (to_writing-Flags (flags_of t j) (v.slot j).in_range).auths
  | inr left ↦
      let mask : flags_of t' j ≡ flags_of t j = rw left at (sent.masks j) in
      ap (λ f. has_flag f is_auth) mask
]

-- Whether a slot is a recipient does not change while the loop writes to others.
valid-Sent :
    (chosen : ℕ → Bool) (serialized : List ℕ) (t t' : Table) (connfd j : ℕ)
    → IsTable t
    → Sent chosen serialized t t'
    → is_valid_recipient t' connfd j ≡ is_valid_recipient t connfd j
unfolding is_valid_recipient
valid-Sent chosen serialized t t' connfd j v sent =
    ap (λ b. b && not (j == connfd)) (auth-Sent chosen serialized t t' j v sent)

pub deliver_world-Sent :
    (rounds i connfd : ℕ) (serialized : List ℕ) (t : Table)
    → IsTable t
    → Sent
        (λ j. from_to i rounds j && is_valid_recipient t connfd j)
        serialized
        t
        (deliver_world rounds i connfd serialized t)
unfolding deliver_world
deliver_world-Sent zero i connfd serialized t v = record {
  outgoing = λ j. ground arith;
  masks = λ j. ground arith;
  incoming = refl;
  user_ids = refl;
  usernames = refl;
  evolves = Evolves-refl t v;
}
deliver_world-Sent (suc rounds) i connfd serialized t v =
    elim (Bool-cases (is_valid_recipient t connfd i)) [
      | inl valid ↦
          let t1 = deliver t i serialized in
          let first = deliver-Sent t v i serialized (valid_auth t connfd i valid) in
          let rest = deliver_world-Sent rounds (i + 1) connfd serialized t1 first.evolves.valid in
          let keeps = λ (j : ℕ). valid-Sent (λ k. i == k) serialized t t1 connfd j v first in
          rw valid (record {
            outgoing = λ j. ground (arith, rest.outgoing j, first.outgoing j, keeps j);
            masks = λ j. ground (arith, rest.masks j, first.masks j, keeps j);
            incoming = rest.incoming ∙ first.incoming;
            user_ids = rest.user_ids ∙ first.user_ids;
            usernames = rest.usernames ∙ first.usernames;
            evolves = Evolves-trans t t1 _ first.evolves rest.evolves;
          })
      | inr other ↦
          let rest = deliver_world-Sent rounds (i + 1) connfd serialized t v in
          rw other (record {
            outgoing = λ j. ground (arith, rest.outgoing j);
            masks = λ j. ground (arith, rest.masks j);
            incoming = rest.incoming;
            user_ids = rest.user_ids;
            usernames = rest.usernames;
            evolves = rest.evolves;
          })
    ]
