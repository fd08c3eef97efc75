-- ===== src/Proto.antt =====
-- The messages of sapphiredb/raft/raftpb/raftpb.proto, as the generated classes hold them: every
-- field has its proto3 default until it is set. Bytes are numbers.
use sapphiredb.Base.{ℕ, Bool, false, List, [], ◌≡◌}

abbrev pub Bytes : Type 0
Bytes = List ℕ

pub data EntryType : Type 0 where
  entry_trival entry_normal entry_conf_change : EntryType

pub record Entry : Type 0 where
  pub type : EntryType
  pub term : ℕ
  pub index : ℕ
  pub bytes : Bytes

abbrev pub empty_entry : Entry
empty_entry = record { type = entry_trival; term = 0; index = 0; bytes = [] }

pub record ConfState : Type 0 where
  pub nodes : List ℕ
  pub learners : List ℕ

pub record SnapshotMetadata : Type 0 where
  pub conf_state : ConfState
  pub index : ℕ
  pub term : ℕ

pub record Snapshot : Type 0 where
  pub bytes : Bytes
  pub metadata : SnapshotMetadata

abbrev pub empty_snapshot : Snapshot
empty_snapshot = record {
  bytes = [];
  metadata = record { conf_state = record { nodes = []; learners = [] }; index = 0; term = 0 };
}

pub record HardState : Type 0 where
  pub term : ℕ
  pub vote : ℕ
  pub commit : ℕ

abbrev pub empty_hard_state : HardState
empty_hard_state = record { term = 0; vote = 0; commit = 0 }

-- `raftpb::Storage`, the content of the storage file.
pub record StorageData : Type 0 where
  pub offset : ℕ
  pub snap : Snapshot
  pub entries : List Entry
  pub hard_state : HardState

abbrev pub empty_storage_data : StorageData
empty_storage_data = record {
  offset = 0;
  snap = empty_snapshot;
  entries = [];
  hard_state = empty_hard_state;
}

pub data MessageType : Type 0 where
  msg_trival msg_heartbeat msg_heartbeat_resp msg_vote msg_vote_resp msg_app : MessageType
  msg_app_resp msg_hup msg_check_quorum msg_transfer_leader msg_snap msg_node : MessageType
  msg_node_resp msg_beat msg_prop : MessageType

pub record Message : Type 0 where
  pub type : MessageType
  pub to : ℕ
  pub from : ℕ
  pub term : ℕ
  pub log_term : ℕ
  pub index : ℕ
  pub entries : List Entry
  pub commit : ℕ
  pub snapshot : Snapshot
  pub reject : Bool
  pub reject_hint : ℕ
  pub context : Bytes

abbrev pub empty_message : Message
empty_message = record {
  type = msg_trival;
  to = 0;
  from = 0;
  term = 0;
  log_term = 0;
  index = 0;
  entries = [];
  commit = 0;
  snapshot = empty_snapshot;
  reject = false;
  reject_hint = 0;
  context = [];
}

-- Protocol Buffers' `SerializeToString` and `ParseFromString`, which the program calls and does not
-- implement. Parsing what was written gives the message back; what it makes of other bytes is open.
-- `stack` is what an uninitialised `char[1024]` and the memory after it hold.
pub record Codec : Type 0 where
  pub write_message : Message → Bytes
  pub read_message : Bytes → Message
  pub read-write_message : (m : Message) → read_message (write_message m) ≡ m
  pub write_storage : StorageData → Bytes
  pub read_storage : Bytes → StorageData
  pub read-write_storage : (d : StorageData) → read_storage (write_storage d) ≡ d
  pub write_hard_state : HardState → Bytes
  pub read_hard_state : Bytes → HardState
  pub read-write_hard_state : (h : HardState) → read_hard_state (write_hard_state h) ≡ h
  pub stack : Bytes
