-- ===== src/Tests/Binds.antt =====
-- The loop that binds ids to descriptors, on two ids and three descriptors.
use sapphiredb.Base.{◌≡◌, [], ◌∷◌}
use sapphiredb.Poll.{runs, Poll}
use sapphiredb.Poll.Epoll
use sapphiredb.Node.Wire.{Node, bind_all}
use sapphiredb.Node.Wire.Binds.{bind_all-bound}
use sapphiredb.Tests.Nodes.{fresh, quiet}

abbrev loop : Poll
loop = Epoll.new_epoll ⦃os = quiet⦄ (record { ip = []; port = 80 }) 4

abbrev unbound : Node
unbound = record {
  raft = record fresh { unknownid = 7 ∷ 9 ∷ [] };
  kque = record loop { net = record loop.net { unknownfd = 3 ∷ 5 ∷ 6 ∷ [] }; peersfd = [] };
}

bind_all-bound_example :
    bind_all unbound
    ≡ runs (record {
      raft = record fresh { unknownid = [] };
      kque = record loop {
        net = record loop.net { unknownfd = 6 ∷ [] };
        peersfd = (7, 3) ∷ (9, 5) ∷ [];
      };
    })
bind_all-bound_example = bind_all-bound unbound
