-- ===== src/Node/Steady.antt =====
-- A node is sound when it is made without a file, and after its start.
use sapphiredb.Base.{ℕ, ◌≡◌, none, List, [], ◌∷◌, Returns, arith}
use sapphiredb.Proto.{Codec, Message, empty_message, msg_hup}
use sapphiredb.Storage.{Storage}
use sapphiredb.Storage
use sapphiredb.Raft.{Raft, reset_randomized_election_timeout}
use sapphiredb.Raft.Members.{send_add_node}
use sapphiredb.Raft.Sound.{Sound, Fits, Answers}
use sapphiredb.Raft.Sound.Sends.{Good, send-Good}
use sapphiredb.Raft.Sound.Roles.{add_node-Good, step_down-Good}
use sapphiredb.Raft.Persist.{create}
use sapphiredb.Node.{add_peers, init}

-- A message that every node is ready for.
abbrev own : Message
own = record empty_message { type = msg_hup }

module _ ⦃c : Codec⦄ where
  own-Fits : (r : Raft) → Fits own r
  own-Fits r = ground arith

  add_peers-Good : (ids : List ℕ) (r : Raft) → Good own r → Good own (add_peers ids r)
  unfolding add_peers send_add_node
  add_peers-Good [] r g = g
  add_peers-Good (id ∷ ids) r g =
      add_peers-Good ids _ (send-Good own _ _ (add_node-Good own id r g))

  pub init-Sound : (peers : List ℕ) (r : Raft) → Sound r → Sound (init peers r)
  unfolding init
  init-Sound peers r v =
      (add_peers-Good peers _
        (step_down-Good own 1 0 r (record { sound = v; fits = own-Fits r }))).sound

  pub no_file-Answers : (s : Storage) → s.file ≡ none → Answers s
  no_file-Answers s f i = unfold Storage.term in ground (arith, f)

  pub create-Sound :
      (id h t : ℕ) (d : ℕ → ℕ) (s : Storage) → s.file ≡ none → Returns Sound (create id h t d s)
  unfolding create reset_randomized_election_timeout Storage.first_index Storage.last_index
      Storage.entries
  create-Sound id h t d s f = rw f (ground (arith, no_file-Answers s f))
