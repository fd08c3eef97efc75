-- ===== src/Tests/Sound.antt =====
-- The theorems on sound nodes and on unique ids, on a leader with two entries and on draws of one
-- fixed number.
use sapphiredb.Base.{true, ℕ, none, ◌+◌, ◌*◌, ◌<◌, ◌≡◌, refl, some, [], ◌∷◌, Returns, arith}
use sapphiredb.Proto.{Message, empty_message, msg_app_resp}
use sapphiredb.Raft.Step.{general_step}
use sapphiredb.Raft.Tick.{tick_times}
use sapphiredb.Raft.Sound.{Sound}
use sapphiredb.Raft.Sound.Total.{general_step-Sound}
use sapphiredb.Node.Steady.{no_file-Answers}
use sapphiredb.Node.Config.{Config, new_node}
use sapphiredb.Node.Ready.{Obliges, new_node-Sound}
use sapphiredb.Poll.{Runs}
use sapphiredb.Uniqueid.{Uniform, Rand, rand, get_uniqueid}
use sapphiredb.Uniqueid.Fields.{get_uniqueid_lem, get_uniqueid_repeats}
use sapphiredb.Tests.Codecs.{codec}
use sapphiredb.Tests.Nodes.{leader, no_file, quiet}

leader-Sound : Sound ⦃c = codec⦄ leader
leader-Sound = ground (arith, no_file-Answers ⦃c = codec⦄ no_file refl)

-- The follower has the whole log.
abbrev pub caught_up : Message
caught_up = record empty_message { type = msg_app_resp; from = 2; to = 1; term = 2; index = 2 }

general_step-Sound_example : Returns (Sound ⦃c = codec⦄) (general_step ⦃c = codec⦄ caught_up leader)
general_step-Sound_example =
    general_step-Sound ⦃c = codec⦄ caught_up leader leader-Sound (ground arith)

quiet-Obliges : Obliges quiet
quiet-Obliges = ground arith

-- Node 1 with two peers, and the timeouts by default.
abbrev config : Config
config = record {
  id = 1;
  raftlog = [];
  timeout = none;
  socket = record { ip = []; port = 80 };
  peers = (2, record { ip = []; port = 81 }) ∷ (3, record { ip = []; port = 82 }) ∷ [];
}

new_node-Sound_example :
    Runs
      (λ n. (ticks : ℕ) → Returns (Sound ⦃c = codec⦄) (tick_times ⦃c = codec⦄ ticks n.raft))
      (new_node ⦃c = codec⦄ ⦃os = quiet⦄ true config (λ n. n) no_file)
new_node-Sound_example =
    new_node-Sound ⦃os = quiet⦄ ⦃c = codec⦄ quiet-Obliges true config (λ n. n) no_file (omega arith)
      refl (λ _. refl) (λ _. refl)

-- The smallest number of the range.
abbrev lowest : Uniform
lowest = record { draw = λ min max seed calls. min; draw_lt = λ min max seed calls h. h }

abbrev started : Rand
started = record { started = some (0, (0x000004ff, 7)); calls = 1 }

get_uniqueid_lem_example :
    let seqid = (rand ⦃u = lowest⦄ 0 0x00000fff 9 started).0 in
    ((get_uniqueid ⦃u = lowest⦄ 5 9 3 started).0 ≡ (5 * 1024 + 3) * 4096 + seqid)
    × (seqid < 0x000004ff)
    × ((get_uniqueid ⦃u = lowest⦄ 5 9 3 started).0 < 9223372036854775808)
get_uniqueid_lem_example = get_uniqueid_lem ⦃u = lowest⦄ 5 9 3 started (7, refl) (omega arith)

get_uniqueid_repeats_example :
    (get_uniqueid ⦃u = lowest⦄ 6 9 1100 started).0 ≡ (get_uniqueid ⦃u = lowest⦄ 7 9 1100 started).0
get_uniqueid_repeats_example =
    get_uniqueid_repeats ⦃u = lowest⦄ 3 9 1100 started (omega arith) (omega arith)
