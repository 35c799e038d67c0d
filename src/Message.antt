-- ===== src/Message.antt =====
-- message/*.go: the messages between the nodes, and the wire form of each.
-- `encoding/json` is a parameter: for each type, what `Marshal` writes, and what `Unmarshal` makes of
-- bytes and of the value that it is to fill in. The source drops the errors of both. A Go string is the
-- list of its bytes, and a nil slice the empty list. The source's fields `Data` are `bytes` here.
pub mod RoundTrip
pub mod Text
use clustered_big_cache.Prelude.{ℕ, ◌+◌, ◌-◌, ◌%◌, ◌^◌, ◌≡◌, List, [], length, replicate}
use clustered_big_cache.Prelude.Int.{ℤ, pos}
use clustered_big_cache.Prelude.Outcome.{Outcome, ok, ◌>>=◌}
use clustered_big_cache.Bytes.{copy_at, put_le, read_le, slice, slice_from}

-- The message codes of message/defs.go
abbrev pub msg_verify : ℕ
msg_verify = 10

abbrev pub msg_verify_ok : ℕ
msg_verify_ok = 11

abbrev pub msg_ping : ℕ
msg_ping = 12

abbrev pub msg_pong : ℕ
msg_pong = 13

abbrev pub msg_put : ℕ
msg_put = 14

abbrev pub msg_get_req : ℕ
msg_get_req = 15

abbrev pub msg_get_rsp : ℕ
msg_get_rsp = 16

abbrev pub msg_del : ℕ
msg_del = 17

abbrev pub msg_sync_req : ℕ
msg_sync_req = 18

abbrev pub msg_sync_rsp : ℕ
msg_sync_rsp = 19

pub record NodeWireMessage : Type 0 where
  pub code : ℕ
  pub bytes : List ℕ

pub record ProposedPeer : Type 0 where
  pub id : List ℕ
  pub ip_address : List ℕ

pub record PutMessage : Type 0 where
  pub code : ℕ
  pub key : List ℕ
  pub expiry : ℕ
  pub bytes : List ℕ

-- `PutMessage.Serialize`
unfoldable pub serialize_put : PutMessage → Outcome NodeWireMessage
serialize_put pm = do
  let key_len = length pm.key
  d₁ ← put_le 8 (replicate (key_len + length pm.bytes + 2 + 8) 0) 0 pm.expiry
  d₂ ← put_le 2 d₁ 8 (key_len % 2 ^ 16)
  d₃ ← copy_at d₂ (8 + 2) pm.key
  d₄ ← copy_at d₃ (8 + 2 + key_len) pm.bytes
  ok (record { code = msg_put; bytes = d₄ })

-- `PutMessage.DeSerialize`. The sum `8 + 2 + keyLen` is a `uint16`, and wraps.
unfoldable pub deserialize_put : NodeWireMessage → Outcome PutMessage
deserialize_put msg = do
  expiry ← read_le 8 msg.bytes 0
  key_len ← read_le 2 msg.bytes 8
  key ← slice msg.bytes (8 + 2) ((8 + 2 + key_len) % 2 ^ 16)
  bytes ← slice_from msg.bytes ((8 + 2 + key_len) % 2 ^ 16)
  ok (record { code = msg_put; key = key; expiry = expiry; bytes = bytes })

pub record GetRspMessage : Type 0 where
  pub code : ℕ
  pub pending_key : List ℕ
  pub bytes : List ℕ

-- `GetRspMessage.Serialize`
unfoldable pub serialize_get_rsp : GetRspMessage → Outcome NodeWireMessage
serialize_get_rsp gm = do
  let key_len = length gm.pending_key
  d₁ ← put_le 2 (replicate (key_len + length gm.bytes + 2) 0) 0 (key_len % 2 ^ 16)
  d₂ ← copy_at d₁ 2 gm.pending_key
  d₃ ← copy_at d₂ (2 + key_len) gm.bytes
  ok (record { code = msg_get_rsp; bytes = d₃ })

-- `GetRspMessage.DeSerialize`
unfoldable pub deserialize_get_rsp : NodeWireMessage → Outcome GetRspMessage
deserialize_get_rsp msg = do
  key_len ← read_le 2 msg.bytes 0
  pending_key ← slice msg.bytes 2 ((2 + key_len) % 2 ^ 16)
  bytes ← slice_from msg.bytes ((2 + key_len) % 2 ^ 16)
  ok (record { code = msg_get_rsp; pending_key = pending_key; bytes = bytes })

-- The types whose wire form is JSON
pub record VerifyMessage : Type 0 where
  pub id : List ℕ
  pub version : List ℕ
  pub service_port : List ℕ
  pub mode : ℕ

pub record GetReqMessage : Type 0 where
  pub code : ℕ
  pub key : List ℕ
  pub pending_key : List ℕ

pub record DeleteMessage : Type 0 where
  pub code : ℕ
  pub key : List ℕ

pub record SyncReqMessage : Type 0 where
  pub code : ℕ
  pub mode : ℕ

pub record SyncRspMessage : Type 0 where
  pub code : ℕ
  pub replication_factor : ℤ
  pub list : List ProposedPeer

-- `json.Marshal` and `json.Unmarshal` at one type.
pub record Codec (A : Type 0) : Type 0 where
  pub marshal : A → List ℕ
  pub unmarshal : List ℕ → A → A

pub record Json : Type 0 where
  pub verify : Codec VerifyMessage
  pub get_req : Codec GetReqMessage
  pub delete : Codec DeleteMessage
  pub sync_req : Codec SyncReqMessage
  pub sync_rsp : Codec SyncRspMessage

-- The values of the interface `NodeMessage`
pub data NodeMessage : Type 0 where
  verify : VerifyMessage → NodeMessage
  verify_ok ping pong : NodeMessage
  put : PutMessage → NodeMessage
  get_req : GetReqMessage → NodeMessage
  get_rsp : GetRspMessage → NodeMessage
  delete : DeleteMessage → NodeMessage
  sync_req : SyncReqMessage → NodeMessage
  sync_rsp : SyncRspMessage → NodeMessage

module _ (J : Json) where
  -- `Serialize` of the JSON types. Some set their own code first, which JSON then carries too.
  unfoldable pub serialize_verify : VerifyMessage → NodeWireMessage
  serialize_verify m = record { code = msg_verify; bytes = J.verify.marshal m }

  unfoldable pub serialize_get_req : GetReqMessage → NodeWireMessage
  serialize_get_req m = record {
    code = msg_get_req;
    bytes = J.get_req.marshal (record m { code = msg_get_req });
  }

  unfoldable pub serialize_delete : DeleteMessage → NodeWireMessage
  serialize_delete m = record {
    code = msg_del;
    bytes = J.delete.marshal (record m { code = msg_del });
  }

  unfoldable pub serialize_sync_req : SyncReqMessage → NodeWireMessage
  serialize_sync_req m = record { code = msg_sync_req; bytes = J.sync_req.marshal m }

  unfoldable pub serialize_sync_rsp : SyncRspMessage → NodeWireMessage
  serialize_sync_rsp m = record {
    code = msg_sync_rsp;
    bytes = J.sync_rsp.marshal (record m { code = msg_sync_rsp });
  }

  -- `Serialize` of the types without data
  abbrev pub serialize_verify_ok : NodeWireMessage
  serialize_verify_ok = record { code = msg_verify_ok; bytes = [] }

  abbrev pub serialize_ping : NodeWireMessage
  serialize_ping = record { code = msg_ping; bytes = [] }

  abbrev pub serialize_pong : NodeWireMessage
  serialize_pong = record { code = msg_pong; bytes = [] }

  -- `Serialize` through the interface
  unfoldable pub serialize : NodeMessage → Outcome NodeWireMessage
  serialize (verify m) = ok (serialize_verify m)
  serialize verify_ok = ok serialize_verify_ok
  serialize ping = ok serialize_ping
  serialize pong = ok serialize_pong
  serialize (put m) = serialize_put m
  serialize (get_req m) = ok (serialize_get_req m)
  serialize (get_rsp m) = serialize_get_rsp m
  serialize (delete m) = ok (serialize_delete m)
  serialize (sync_req m) = ok (serialize_sync_req m)
  serialize (sync_rsp m) = ok (serialize_sync_rsp m)

  -- `DeSerialize` of the JSON types, into the zero value that the handlers start from.
  unfoldable pub deserialize_verify : NodeWireMessage → VerifyMessage
  deserialize_verify msg =
      J.verify.unmarshal msg.bytes (record { id = []; version = []; service_port = []; mode = 0 })

  unfoldable pub deserialize_get_req : NodeWireMessage → GetReqMessage
  deserialize_get_req msg =
      J.get_req.unmarshal msg.bytes (record { code = 0; key = []; pending_key = [] })

  unfoldable pub deserialize_delete : NodeWireMessage → DeleteMessage
  deserialize_delete msg = J.delete.unmarshal msg.bytes (record { code = 0; key = [] })

  unfoldable pub deserialize_sync_req : NodeWireMessage → SyncReqMessage
  deserialize_sync_req msg = J.sync_req.unmarshal msg.bytes (record { code = 0; mode = 0 })

  unfoldable pub deserialize_sync_rsp : NodeWireMessage → SyncRspMessage
  deserialize_sync_rsp msg =
      J.sync_rsp.unmarshal msg.bytes (record { code = 0; replication_factor = pos 0; list = [] })
