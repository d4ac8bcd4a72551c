-- ===== src/Server/Broadcast/Senders.antt =====
-- Which requests `handle_broadcast_message` accepts.
use tcp_chat_server.Prelude.{
  ℕ, ◌≡◌, ◌≢◌, ◌⊎◌, inl, inr, refl, List, [], true, false, ◌==◌, Bool-cases, arith, bytes_eq,
  bytes_eq_refl, ℤ, pos, is_zero, is_zero→eq, pair_eq,
}
use tcp_chat_server.Protocol.Types.{
  Message, WorldBroadcast, P2pBroadcast, tlv_tag, tag_world_broadcast, tag_p2p_broadcast,
}
use tcp_chat_server.Protocol.Message.{peek_broadcast_type}
use tcp_chat_server.Protocol.World.{parse_world_broadcast, no_world_broadcast}
use tcp_chat_server.Protocol.P2p.{parse_p2p_broadcast, no_p2p_broadcast}
use tcp_chat_server.Flags.{has_flag, is_auth}
use tcp_chat_server.Server.Table.{Table, flags_of, username_of}
use tcp_chat_server.Server.Broadcast.{
  reject, send_world, send_p2p, handle_world, handle_p2p, handle_broadcast_message,
}

-- A world broadcast with some content.
pub record IsWorld (request : Message) : Type 0 where
  pub tagged : peek_broadcast_type request ≡ tlv_tag tag_world_broadcast
  pub broadcast : WorldBroadcast
  pub parsed : parse_world_broadcast request no_world_broadcast ≡ (pos 0, broadcast)
  pub content : broadcast.message_content ≢ []

-- A P2P broadcast with some content for another name than the sender's.
pub record IsP2p (sender : List ℕ) (request : Message) : Type 0 where
  pub tagged : peek_broadcast_type request ≡ tlv_tag tag_p2p_broadcast
  pub broadcast : P2pBroadcast
  pub parsed : parse_p2p_broadcast request no_p2p_broadcast ≡ (pos 0, broadcast)
  pub content : broadcast.message_content ≢ []
  pub to_another : sender ≢ broadcast.recipient_username

filled : (content : List ℕ) → bytes_eq content [] ≡ false → content ≢ []
filled content other = λ e. (let no : bytes_eq content [] ≡ true = rw e refl in cc)

distinct : (a b : List ℕ) → bytes_eq a b ≡ false → a ≢ b
distinct a b other = λ e. (let no : bytes_eq a b ≡ true = rw e (bytes_eq_refl b) in cc)

module _ (connfd : ℕ) (t : Table) (request response : Message) where
  -- A rejection with a code that is not 0 is none with the code 0.
  rejected : (code : ℤ) → is_zero code ≡ false → is_zero (reject t code).0 ≡ true → false ≡ true
  unfolding reject
  rejected code failed ok = cc

  accepted-IsWorld :
      is_zero (handle_world connfd t request response).0 ≡ true
      → peek_broadcast_type request ≡ tlv_tag tag_world_broadcast
      → IsWorld request
  unfolding handle_world send_world
  accepted-IsWorld ok tagged =
      let got = parse_world_broadcast request no_world_broadcast in
      elim (Bool-cases (is_zero got.0)) [
        | inr failed ↦ let no = rejected got.0 failed (rw failed at ok) in absurd (ground arith)
        | inl parsed ↦ elim (Bool-cases (bytes_eq got.1.message_content [])) [
          | inl empty ↦
              let no = rejected (pos 1) refl (rw (parsed, empty) at ok) in absurd (ground arith)
          | inr other ↦ record {
            tagged = tagged;
            broadcast = got.1;
            parsed = pair_eq got (is_zero→eq got.0 parsed);
            content = filled got.1.message_content other;
          }
        ]
      ]

  accepted-IsP2p :
      is_zero (handle_p2p connfd t request response).0 ≡ true
      → peek_broadcast_type request ≡ tlv_tag tag_p2p_broadcast
      → IsP2p (username_of t connfd) request
  unfolding handle_p2p send_p2p
  accepted-IsP2p ok tagged =
      let got = parse_p2p_broadcast request no_p2p_broadcast in
      let sender = username_of t connfd in
      elim (Bool-cases (is_zero got.0)) [
        | inr failed ↦ let no = rejected got.0 failed (rw failed at ok) in absurd (ground arith)
        | inl parsed ↦ elim (Bool-cases (bytes_eq got.1.message_content [])) [
          | inl empty ↦
              let no = rejected (pos 1) refl (rw (parsed, empty) at ok) in absurd (ground arith)
          | inr other ↦ elim (Bool-cases (bytes_eq sender got.1.recipient_username)) [
            | inl self ↦
                let no = rejected (pos 1) refl (rw (parsed, other, self) at ok) in
                absurd (ground arith)
            | inr away ↦ record {
              tagged = tagged;
              broadcast = got.1;
              parsed = pair_eq got (is_zero→eq got.0 parsed);
              content = filled got.1.message_content other;
              to_another = distinct sender got.1.recipient_username away;
            }
          ]
        ]
      ]

  -- A broadcast is accepted only from an authenticated connection: if `handle_broadcast_message`
  -- returns RESP_OK, then the sender's slot has IS_AUTH, and the request starts with the tag of a
  -- world broadcast and parses as one with some content, or it starts with the tag of a P2P
  -- broadcast and parses as one with some content for another name than the sender's.
  pub handle_broadcast_message_ok :
      is_zero (handle_broadcast_message connfd t request response).0 ≡ true
      → (has_flag (flags_of t connfd) is_auth ≡ true)
        × (IsWorld request ⊎ IsP2p (username_of t connfd) request)
  unfolding handle_broadcast_message
  handle_broadcast_message_ok ok = elim (Bool-cases (has_flag (flags_of t connfd) is_auth)) [
    | inr guest ↦ let no = rejected (pos 4) refl (rw guest at ok) in absurd (ground arith)
    | inl auth ↦ elim (Bool-cases (peek_broadcast_type request == tlv_tag tag_world_broadcast)) [
      | inl world ↦ (auth, inl (accepted-IsWorld (rw (auth, world) at ok) (ground arith)))
      | inr other ↦ elim (Bool-cases (peek_broadcast_type request == tlv_tag tag_p2p_broadcast)) [
        | inl p2p ↦ (auth, inr (accepted-IsP2p (rw (auth, other, p2p) at ok) (ground arith)))
        | inr unknown ↦
            let no = rejected (pos 1) refl (rw (auth, other, unknown) at ok) in
            absurd (ground arith)
      ]
    ]
  ]
