-- ===== src/Tests/Codecs.antt =====
-- A concrete codec for the messages of raftpb.proto, with which the theorems are tried. Every number
-- is written one greater than it is, so that no byte is zero, and a list after its length.
use sapphiredb.Base.{
  ℕ, ◌==◌, if◌then◌else◌, zero, suc, ◌≡◌, refl, ap, Bool, true, false, List, [], ◌∷◌,
}
use sapphiredb.Proto.{
  Bytes, Codec, EntryType, entry_trival, entry_normal, entry_conf_change, Entry, ConfState,
  SnapshotMetadata, Snapshot, HardState, StorageData, MessageType, msg_trival, msg_heartbeat,
  msg_heartbeat_resp, msg_vote, msg_vote_resp, msg_app, msg_app_resp, msg_hup, msg_check_quorum,
  msg_transfer_leader, msg_snap, msg_node, msg_node_resp, msg_beat, msg_prop, Message,
}
use sapphiredb.Tests.Formats.{Format, number, both, via, list}

abbrev entry_type_code : EntryType → ℕ
entry_type_code entry_trival = 0
entry_type_code entry_normal = 1
entry_type_code entry_conf_change = 2

abbrev entry_type_of : ℕ → EntryType
entry_type_of n =
    if n == 0
    then entry_trival
    else if n == 1
    then entry_normal
    else if n == 2
    then entry_conf_change
    else entry_trival

pub entry_type_of-code : (t : EntryType) → entry_type_of (entry_type_code t) ≡ t
entry_type_of-code entry_trival = refl
entry_type_of-code entry_normal = refl
entry_type_of-code entry_conf_change = refl

abbrev entry_type_format : Format EntryType
entry_type_format = via entry_type_code entry_type_of entry_type_of-code number

abbrev message_type_code : MessageType → ℕ
message_type_code msg_trival = 0
message_type_code msg_heartbeat = 1
message_type_code msg_heartbeat_resp = 2
message_type_code msg_vote = 3
message_type_code msg_vote_resp = 4
message_type_code msg_app = 5
message_type_code msg_app_resp = 6
message_type_code msg_hup = 7
message_type_code msg_check_quorum = 8
message_type_code msg_transfer_leader = 9
message_type_code msg_snap = 10
message_type_code msg_node = 11
message_type_code msg_node_resp = 12
message_type_code msg_beat = 13
message_type_code msg_prop = 14

abbrev message_type_of : ℕ → MessageType
message_type_of n =
    if n == 0
    then msg_trival
    else if n == 1
    then msg_heartbeat
    else if n == 2
    then msg_heartbeat_resp
    else if n == 3
    then msg_vote
    else if n == 4
    then msg_vote_resp
    else if n == 5
    then msg_app
    else if n == 6
    then msg_app_resp
    else if n == 7
    then msg_hup
    else if n == 8
    then msg_check_quorum
    else if n == 9
    then msg_transfer_leader
    else if n == 10
    then msg_snap
    else if n == 11
    then msg_node
    else if n == 12
    then msg_node_resp
    else if n == 13
    then msg_beat
    else if n == 14
    then msg_prop
    else msg_trival

pub message_type_of-code : (t : MessageType) → message_type_of (message_type_code t) ≡ t
message_type_of-code msg_trival = refl
message_type_of-code msg_heartbeat = refl
message_type_of-code msg_heartbeat_resp = refl
message_type_of-code msg_vote = refl
message_type_of-code msg_vote_resp = refl
message_type_of-code msg_app = refl
message_type_of-code msg_app_resp = refl
message_type_of-code msg_hup = refl
message_type_of-code msg_check_quorum = refl
message_type_of-code msg_transfer_leader = refl
message_type_of-code msg_snap = refl
message_type_of-code msg_node = refl
message_type_of-code msg_node_resp = refl
message_type_of-code msg_beat = refl
message_type_of-code msg_prop = refl

abbrev message_type_format : Format MessageType
message_type_format = via message_type_code message_type_of message_type_of-code number

abbrev bool_code : Bool → ℕ
bool_code false = 0
bool_code true = 1

abbrev bool_of : ℕ → Bool
bool_of n = if n == 0 then false else if n == 1 then true else true

pub bool_of-code : (t : Bool) → bool_of (bool_code t) ≡ t
bool_of-code false = refl
bool_of-code true = refl

abbrev bool_format : Format Bool
bool_format = via bool_code bool_of bool_of-code number

abbrev build_entry : (EntryType × (ℕ × (ℕ × Bytes))) → Entry
build_entry (x0, (x1, (x2, x3))) = record { type = x0; term = x1; index = x2; bytes = x3 }

abbrev pub entry_format : Format Entry
entry_format =
    via (λ r. (r.type, (r.term, (r.index, r.bytes)))) build_entry (λ r. refl)
      (both entry_type_format (both number (both number ((list number)))))

abbrev build_conf_state : (List ℕ × List ℕ) → ConfState
build_conf_state (x0, x1) = record { nodes = x0; learners = x1 }

abbrev pub conf_state_format : Format ConfState
conf_state_format =
    via (λ r. (r.nodes, r.learners)) build_conf_state (λ r. refl)
      (both (list number) ((list number)))

abbrev build_metadata : (ConfState × (ℕ × ℕ)) → SnapshotMetadata
build_metadata (x0, (x1, x2)) = record { conf_state = x0; index = x1; term = x2 }

abbrev pub metadata_format : Format SnapshotMetadata
metadata_format =
    via (λ r. (r.conf_state, (r.index, r.term))) build_metadata (λ r. refl)
      (both conf_state_format (both number (number)))

abbrev build_snapshot : (Bytes × SnapshotMetadata) → Snapshot
build_snapshot (x0, x1) = record { bytes = x0; metadata = x1 }

abbrev pub snapshot_format : Format Snapshot
snapshot_format =
    via (λ r. (r.bytes, r.metadata)) build_snapshot (λ r. refl)
      (both (list number) (metadata_format))

abbrev build_hard_state : (ℕ × (ℕ × ℕ)) → HardState
build_hard_state (x0, (x1, x2)) = record { term = x0; vote = x1; commit = x2 }

abbrev pub hard_state_format : Format HardState
hard_state_format =
    via (λ r. (r.term, (r.vote, r.commit))) build_hard_state (λ r. refl)
      (both number (both number (number)))

abbrev build_storage : (ℕ × (Snapshot × (List Entry × HardState))) → StorageData
build_storage (x0, (x1, (x2, x3))) = record {
  offset = x0;
  snap = x1;
  entries = x2;
  hard_state = x3;
}

abbrev pub storage_format : Format StorageData
storage_format =
    via (λ r. (r.offset, (r.snap, (r.entries, r.hard_state)))) build_storage (λ r. refl)
      (both number (both snapshot_format (both (list entry_format) (hard_state_format))))

abbrev build_message :
    (MessageType
      × (ℕ × (ℕ × (ℕ × (ℕ × (ℕ × (List Entry × (ℕ × (Snapshot × (Bool × (ℕ × Bytes)))))))))))
    → Message
build_message (x0, (x1, (x2, (x3, (x4, (x5, (x6, (x7, (x8, (x9, (x10, x11))))))))))) = record {
  type = x0;
  to = x1;
  from = x2;
  term = x3;
  log_term = x4;
  index = x5;
  entries = x6;
  commit = x7;
  snapshot = x8;
  reject = x9;
  reject_hint = x10;
  context = x11;
}

abbrev pub message_format : Format Message
message_format =
    via
      (λ r. (
        r.type,
        (
          r.to,
          (
            r.from,
            (
              r.term,
              (
                r.log_term,
                (
                  r.index,
                  (r.entries, (r.commit, (r.snapshot, (r.reject, (r.reject_hint, r.context))))),
                ),
              ),
            ),
          ),
        ),
      ))
      build_message (λ r. refl)
      (both message_type_format (
        both number (
          both number (
            both number (
              both number (
                both number (
                  both (list entry_format) (
                    both number (
                      both snapshot_format (both bool_format (both number ((list number)))))))))))))

abbrev write_text : {A : Type 0} → Format A → A → Bytes
write_text f a = f.write a []

abbrev read_text : {A : Type 0} → Format A → Bytes → A
read_text f bs = (f.read bs).0

pub read_text-write_text : {A : Type 0} (f : Format A) (a : A) → read_text f (write_text f a) ≡ a
read_text-write_text f a = ap (λ p. p.0) (f.read-write a [])

abbrev zeros : ℕ → Bytes
zeros zero = []
zeros (suc n) = 0 ∷ zeros n

-- The stack holds zeros, more than any text that is tried.
abbrev pub codec : Codec
codec = record {
  write_message = write_text message_format;
  read_message = read_text message_format;
  read-write_message = read_text-write_text message_format;
  write_storage = write_text storage_format;
  read_storage = read_text storage_format;
  read-write_storage = read_text-write_text storage_format;
  write_hard_state = write_text hard_state_format;
  read_hard_state = read_text hard_state_format;
  read-write_hard_state = read_text-write_text hard_state_format;
  stack = zeros 100;
}
