-- ===== src/Raft/Persist.antt =====
-- raft.cc: a new node from its storage, and the writing of committed entries.
pub mod Applied
pub mod Restart
use sapphiredb.Base.{
  ℕ, ◌+◌, ◌-◌, Bool, true, false, ◌&&◌, List, [], ◌∷◌, Outcome, ok, undefined, ◌>>=◌, ltb, leb,
  ◌==◌, if◌then◌else◌, u64, sub64, length, take, drop,
}
use sapphiredb.Proto.{Codec, Entry}
use sapphiredb.Storage.{Storage}
use sapphiredb.Storage
use sapphiredb.Raft.{
  Raft, state_follower, step_follower_function, tick_election_function, snap_unset,
  reset_randomized_election_timeout,
}
use sapphiredb.Raft.Log.{applied_to}

-- The position of the first entry with the index, or the number of entries.
unfoldable pub find_position : ℕ → List Entry → ℕ
find_position index [] = 0
find_position index (e ∷ es) = if index == e.index then 0 else find_position index es + 1

-- The vector made of the positions from `first` up to `last`, which must lie in the vector.
unfoldable pub slice : ℕ → ℕ → List Entry → Outcome (List Entry)
slice first last ents =
    if leb first last && leb last (length ents) then ok (drop first (take last ents)) else undefined

-- The entries that `storageLog` hands to the storage, and whether it does.
unfoldable pub to_store : Raft → Outcome (Bool × List Entry)
unfolding find_position slice
to_store r =
    let maxi = find_position r.last_applied r.entries in
    let pending = sub64 r.commit_index r.last_applied in
    if ltb r.last_applied r.commit_index && leb pending (length r.entries)
    then ((if maxi == length r.entries
          then slice 0 r.commit_index r.entries
          else slice (maxi + 1) (maxi + 1 + pending) r.entries)
        >>= λ ents. ok (true, ents))
    else ok (false, [])

module _ ⦃c : Codec⦄ where
  unfoldable pub storage_log : Raft → Outcome Raft
  unfolding to_store
  storage_log r = to_store r >>= λ res. ok (
      applied_to r.commit_index
        (if res.0 then record r { storage = Storage.append (res.1) r.storage } else r))

  -- The constructor: the id, the two timeouts, the random numbers, and the file that is found.
  unfoldable pub create : ℕ → ℕ → ℕ → (ℕ → ℕ) → Storage → Outcome Raft
  create id heartbeat_timeout election_timeout draws storage =
      Storage.first_index storage >>= λ first. Storage.last_index storage >>= λ last.
      Storage.entries storage >>= λ _. ok (
        reset_randomized_election_timeout (record {
          public_prs = [];
          current_term = 0;
          vote = 0;
          id = id;
          is_leader = false;
          prs = [];
          votes = [];
          commit_index = if ltb 0 first then first - 1 else 0;
          last_applied = if ltb 0 first then first - 1 else 0;
          entries = [];
          snap = snap_unset;
          offset = if ltb 0 last then u64 (last + 1) else 1;
          storage = storage;
          leader = 0;
          state = state_follower;
          heartbeat_elapsed = 0;
          heartbeat_timeout = heartbeat_timeout;
          election_elapsed = 0;
          election_timeout = election_timeout;
          step = step_follower_function;
          tick = tick_election_function;
          randomized_election_timeout = 0;
          check_quorum = false;
          sendmsgs = [];
          recvmsgs = [];
          unknownid = [];
          ready = false;
          draws = draws;
        }))
