-- ===== src/Protocol/World/Parsing.antt =====
-- `parse_world_broadcast` on any payload.
use tcp_chat_server.Prelude.{
  ℕ, inl, inr, ◌≡◌, refl, ap, ◌∙◌, sym, Option, none, some, List, [], ◌∷◌, Bool, true, false, ◌||◌,
  ◌==◌, length, if◌then◌else◌, All, pos, arith, ltb,
}
use tcp_chat_server.Protocol.Types.{Message, WorldBroadcast, max_username_size}
use tcp_chat_server.Protocol.Tlv.{finished, walk, next, stop}
use tcp_chat_server.Protocol.Tlv.Stream.{Tlv, encode, walk-encode, Walk-cases, walk-finished}
use tcp_chat_server.Protocol.Tlv.Values.{
  last_value, value_or, is_given, put_all, scan-put_all, scan_finished,
}
use tcp_chat_server.Protocol.Message.{payload_bytes}
use tcp_chat_server.Protocol.World.{
  WorldScan, world_switch, world_result, world_start, parse_world_broadcast,
}

-- A sender's username is short enough; any other TLV may have any value.
abbrev pub within_limits : Tlv → Bool
within_limits t =
    if t.tag == 9 then (if ltb max_username_size (length t.value) then false else true) else true

abbrev pub AllWithin : List Tlv → Type 0
AllWithin = All λ t. within_limits t ≡ true

-- What the `switch` stores of a TLV within the limits.
abbrev put : Tlv → WorldScan → WorldScan
put t s = record {
  broadcast = record {
    sender_username = if t.tag == 9 then t.value else s.broadcast.sender_username;
    message_content = if t.tag == 11 then t.value else s.broadcast.message_content;
  };
  has_broadcast_tag = t.tag == 4 || s.has_broadcast_tag;
  has_sender = t.tag == 9 || s.has_sender;
  has_content = t.tag == 11 || s.has_content;
}

switches :
    (t : Tlv) (s : WorldScan)
    → world_switch t.tag t.value s ≡ (if within_limits t then next (put t s) else stop s)
unfolding world_switch
switches t s = ground arith

-- The fields after a list of TLVs: the last value of each tag counts.
abbrev fields : List Tlv → WorldScan → WorldScan
fields ts s = record {
  broadcast = record {
    sender_username = value_or (last_value 9 ts) s.broadcast.sender_username;
    message_content = value_or (last_value 11 ts) s.broadcast.message_content;
  };
  has_broadcast_tag = is_given (last_value 4 ts) || s.has_broadcast_tag;
  has_sender = is_given (last_value 9 ts) || s.has_sender;
  has_content = is_given (last_value 11 ts) || s.has_content;
}

put_all-fields : (ts : List Tlv) (s : WorldScan) → put_all put ts s ≡ fields ts s
put_all-fields [] s = refl
put_all-fields (t ∷ ts) s = put_all-fields ts (put t s) ∙ ground arith

world_walk :
    (payload : List ℕ) (ts : List Tlv) (b : WorldBroadcast)
    → payload ≡ encode ts
    → AllWithin ts
    → walk (λ s. s) world_switch payload (world_start b) ≡ finished (fields ts (world_start b))
world_walk payload ts b e w =
    rw e (walk-encode (λ s. s) world_switch ts (world_start b))
    ∙ scan-put_all world_switch within_limits put (λ s. s) switches ts (world_start b) w
    ∙ ap finished (put_all-fields ts (world_start b))

-- The parser returns 0 only if the three tags were there.
all_given :
    (m u c : Option (List ℕ)) (b b' : WorldBroadcast)
    → world_result (
        finished (record {
          broadcast = record {
            sender_username = value_or u b.sender_username;
            message_content = value_or c b.message_content;
          };
          has_broadcast_tag = is_given m || false;
          has_sender = is_given u || false;
          has_content = is_given c || false;
        }))
      ≡ (pos 0, b')
    → (is_given m ≡ true) × (u ≡ some b'.sender_username) × (c ≡ some b'.message_content)
all_given (some m) (some u) (some c) b b' e = (refl, cc, cc)
all_given (some m) (some u) none b b' e = ground arith
all_given (some m) none c b b' e = ground arith
all_given none u c b b' e = ground arith

-- A request that parses is a list of TLVs within the limits with the tag of a world broadcast, and
-- the sender and the content are the last values of their tags.
pub parse_world_broadcast_sound :
    (request : Message) (b b' : WorldBroadcast)
    → parse_world_broadcast request b ≡ (pos 0, b')
    → (ts : List Tlv) × (payload_bytes request ≡ encode ts)
      × AllWithin ts
      × (is_given (last_value 4 ts) ≡ true)
      × (last_value 9 ts ≡ some b'.sender_username)
      × (last_value 11 ts ≡ some b'.message_content)
unfolding parse_world_broadcast
parse_world_broadcast_sound request b b' e =
    elim (Walk-cases (walk (λ s. s) world_switch (payload_bytes request) (world_start b))) [
      | inr (s, h) ↦ let refused = rw h at e in ground arith
      | inl (s, h) ↦
          let (ts, encoded, scanned) = walk-finished _ _ (payload_bytes request) _ s h in
          let (w, same) =
            scan_finished world_switch within_limits put (λ s. s) switches ts _ s scanned in
          let stored = same ∙ put_all-fields ts (world_start b) in
          let (m, u, c) =
            all_given (last_value 4 ts) (last_value 9 ts) (last_value 11 ts) b b'
              (ap (λ x. world_result (finished x)) (sym stored) ∙ rw h at e) in
          (ts, encoded, w, m, u, c)
    ]

-- A list of TLVs within the limits parses if it has the three tags; their last values count.
pub parse_world_broadcast_complete :
    (request : Message) (b : WorldBroadcast) (ts : List Tlv) (m u c : List ℕ)
    → payload_bytes request ≡ encode ts
    → AllWithin ts
    → last_value 4 ts ≡ some m
    → last_value 9 ts ≡ some u
    → last_value 11 ts ≡ some c
    → parse_world_broadcast request b ≡ (pos 0, record { sender_username = u; message_content = c })
unfolding parse_world_broadcast
parse_world_broadcast_complete request b ts m u c e w hm hu hc =
    ap world_result (world_walk (payload_bytes request) ts b e w) ∙ ground arith
