-- ===== src/Conversation/Forwarded.antt =====
-- What the server's `try_one_request` makes of a request for a P2P broadcast to a client that is
-- logged in.
use mathlib.Core.Path.{subst}
use tcp_chat_server.Prelude.{
  ◌≡◌, ◌≢◌, ◌∙◌, sym, refl, ap, ℕ, ◌<◌, some, List, [], ◌++◌, true, false, ltb, ◌==◌, Bool-cases,
  inl, inr, ltb→lt, arith,
}
use tcp_chat_server.Protocol.Types.{Message, P2pBroadcast}
use tcp_chat_server.Protocol.Message.{parse_message, write_message_to_buffer}
use tcp_chat_server.Protocol.Request.{Request}
use tcp_chat_server.Protocol.P2p.{build_p2p_broadcast_request}
use tcp_chat_server.Protocol.P2p.RoundTrip.{IsSendable, IsSendable-Fits, Fits, p2p_message}
use tcp_chat_server.Protocol.Buffers.{to_one, Built-IsBuffered}
use tcp_chat_server.Flags.{has_flag, is_auth}
use tcp_chat_server.Database.{Sqlite}
use tcp_chat_server.Server.Table.{Table, flags_of, incoming_of, outgoing_of, username_of}
use tcp_chat_server.Server.Table.Layout.{IsTable}
use tcp_chat_server.Server.Broadcast.{Handled, handle_broadcast_message}
use tcp_chat_server.Server.Broadcast.Delivery.{and_true}
use tcp_chat_server.Server.Broadcast.Search.{is_recipient}
use tcp_chat_server.Server.Broadcast.Accepted.{
  Delivered, to_first, to_nobody, handle_broadcast_message_p2p,
}
use tcp_chat_server.Server.Session.{Server, try_one_request, empty_response}
use tcp_chat_server.Conversation.Chat.{recipient_other, chat_served}
use tcp_chat_server.Conversation.Whispers.{Carries, request-Carries}

-- The slot is the first one of the recipient.
pub record IsAddressee (t : Table) (connfd : ℕ) (recipient : List ℕ) (fd : ℕ) : Type 0 where
  pub named : is_recipient t connfd recipient fd ≡ true
  pub no_earlier : (j : ℕ) → j < fd → is_recipient t connfd recipient j ≡ false

only_first :
    (t : Table) (connfd : ℕ) (recipient : List ℕ) (fd other : ℕ)
    → IsAddressee t connfd recipient fd
    → IsAddressee t connfd recipient other
    → (other == fd) ≡ true
only_first t connfd recipient fd other a b = elim (Bool-cases (ltb fd other)) [
  | inl before ↦ (let no = b.no_earlier fd (ltb→lt fd other before) in let yes = a.named in cc)
  | inr not_before ↦ elim (Bool-cases (ltb other fd)) [
    | inl behind ↦ (let no = a.no_earlier other (ltb→lt other fd behind) in let yes = b.named in cc)
    | inr same ↦ ground arith
  ]
]

outgoing-Delivered :
    (t : Table) (connfd : ℕ) (recipient : List ℕ) (fd : ℕ) (sent : Message) (h : Handled)
    → IsAddressee t connfd recipient fd
    → Delivered t connfd recipient sent h
    → outgoing_of h.1 fd ≡ outgoing_of t fd ++ write_message_to_buffer [] sent
outgoing-Delivered t connfd recipient fd sent _ a (to_first other t' named earlier s) =
    let same =
      only_first t connfd recipient fd other a (record { named = named; no_earlier = earlier }) in
    s.outgoing fd ∙ rw same refl
outgoing-Delivered t connfd recipient fd sent _ a (to_nobody missing) =
    let no = missing fd in let yes = a.named in cc

module _ (sqlite : Sqlite) (connfd : ℕ) (s : Server sqlite.State) (b : P2pBroadcast) (r : Request)
    (fd : ℕ) (v : IsTable s.table) (auth : has_flag (flags_of s.table connfd) is_auth ≡ true)
    (name : username_of s.table connfd ≡ b.sender_username) (limits : IsSendable b)
    (filled : b.message_content ≢ []) (built : build_p2p_broadcast_request b ≡ some r)
    (received : incoming_of s.table connfd ≡ r.bytes)
    (a : IsAddressee s.table connfd b.recipient_username fd) where
  pub whisper_forwarded :
      let (served, s') = try_one_request sqlite connfd s in
      (served ≡ true)
      × (outgoing_of s'.table fd
          ≡ outgoing_of s.table fd ++ write_message_to_buffer [] (p2p_message empty_response b))
  whisper_forwarded =
      let c =
        subst (λ bytes. Carries (parse_message bytes) b r) (sym received)
          (request-Carries b r limits built) in
      let fits = Built-IsBuffered r (to_one b built) in
      let request = parse_message (incoming_of s.table connfd) in
      let handled = handle_broadcast_message connfd s.table request empty_response in
      let renamed : record b { sender_username = username_of s.table connfd } ≡ b =
        ap (λ n. record b { sender_username = n }) name in
      let delivered =
        handle_broadcast_message_p2p connfd s.table request empty_response b v auth c.tag c.parsed
          filled (λ e. limits.to_another (sym name ∙ e))
          (subst Fits (sym renamed) (IsSendable-Fits b limits)) in
      let (served, others) = chat_served sqlite connfd s r v auth fits received c.is_chat in
      (
        served,
        others fd (recipient_other s.table connfd fd (and_true _ _ a.named))
            ∙ outgoing-Delivered s.table connfd b.recipient_username fd
                (p2p_message empty_response b) handled a
                (subst
                  (λ q.
                    Delivered s.table connfd b.recipient_username (p2p_message empty_response q)
                      handled)
                  renamed delivered),
      )
