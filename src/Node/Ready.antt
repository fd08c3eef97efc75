-- ===== src/Node/Ready.antt =====
-- A node made from its configuration comes to the end of its start.
use mathlib.Core.Path.{subst}
use sapphiredb.Base.{
  ℕ, ◌<◌, ◌≡◌, ◌≢◌, refl, sym, ◌∙◌, inl, inr, Bool, Bool-cases, true, false, ◌&&◌, none, List, [],
  ◌∷◌, ◌==◌, Returns, Returns-ok, Option-cases, map, u32, arith,
}
use sapphiredb.Proto.{Codec}
use sapphiredb.Storage.{Storage}
use sapphiredb.Raft.{step_down}
use sapphiredb.Raft.Members.{add_node, send_add_node}
use sapphiredb.Raft.Tally.All.{elem}
use sapphiredb.Raft.Sound.{Sound}
use sapphiredb.Raft.Sound.Clock.{tick_times-Sound}
use sapphiredb.Raft.Tick.{tick_times}
use sapphiredb.Poll.{
  Process, runs, exits, spins, faults, ◌>>>◌, Runs, Kernel, Poll, Address, Call, Events, Op,
  get_flags, set_nonblock, epoll_ctl, epoll_ctl_add, bind, socket, create_queue, listen, system,
  open_connection, set_non_block,
}
use sapphiredb.Poll.Epoll
use sapphiredb.Node.{init}
use sapphiredb.Node.Steady.{init-Sound, create-Sound}
use sapphiredb.Node.Wire.{Node, connect_peers, start}
use sapphiredb.Node.Config.{Config, make_raft, new_node, IfRuns, start-raft}

-- The flags of descriptors can be read and set, and their events changed.
pub record Obliges (os : Kernel) : Type 0 where
  pub flags_ok : (fd : ℕ) (calls : List Call) → os.answer (get_flags fd ∷ calls) < 2147483648
  pub set_ok :
      (fd flags : ℕ) (calls : List Call) → os.answer (set_nonblock fd flags ∷ calls) < 2147483648
  pub epoll_ctl_ok :
      (efd fd : ℕ) (events : Events) (op : Op) (calls : List Call)
      → os.answer (epoll_ctl efd fd events op ∷ calls) ≡ 0

-- An event loop with a logger or without.
abbrev Logger : Bool → Poll → Type 0
Logger logger p = p.logger ≡ logger

abbrev Goes : {A : Type 0} → Process A → Type 0
Goes m = Runs (λ _. Unit) m

bind-Runs :
    {A B : Type 0} (P : A → Type 0) (Q : B → Type 0) (m : Process A) (f : A → Process B)
    → Runs P m
    → ((a : A) → P a → Runs Q (f a))
    → Runs Q (m >>> f)
bind-Runs P Q (runs a) f g h = h a g
bind-Runs P Q exits f g h = absurd g
bind-Runs P Q spins f g h = absurd g
bind-Runs P Q faults f g h = absurd g

both-Runs : {A : Type 0} (P : A → Type 0) (m : Process A) → Goes m → IfRuns P m → Runs P m
both-Runs P (runs a) g h = h
both-Runs P exits g h = g
both-Runs P spins g h = g
both-Runs P faults g h = g

module _ ⦃os : Kernel⦄ (o : Obliges os) where
  set_non_block-Logger : (fd : ℕ) (p : Poll) → Runs (Logger p.logger) (set_non_block fd p)
  unfolding set_non_block system
  set_non_block-Logger fd p =
      let f = o.flags_ok fd p.calls in
      let s = o.set_ok fd (os.answer (get_flags fd ∷ p.calls)) (get_flags fd ∷ p.calls) in
      ground (arith, f, s)

  update_events-Logger :
      (efd fd : ℕ) (events : Events) (op : Op) (p : Poll)
      → Runs (Logger p.logger) (Epoll.update_events efd fd events op p)
  unfolding Epoll.update_events system
  update_events-Logger efd fd events op p = rw (o.epoll_ctl_ok efd fd events op p.calls) refl

  -- A descriptor that does not block, and whose events are watched.
  watched-Logger :
      (efd target : Poll → ℕ) (p : Poll)
      → Runs (Logger p.logger) (
          set_non_block (target p) p >>> λ q.
          Epoll.update_events (efd q) (target q) Epoll.reads_events epoll_ctl_add q)
  watched-Logger efd target p =
      bind-Runs (Logger p.logger) (Logger p.logger) (set_non_block (target p) p) _
        (set_non_block-Logger (target p) p)
        (λ q e.
          subst
            (λ b.
              Runs (Logger b)
                (Epoll.update_events (efd q) (target q) Epoll.reads_events epoll_ctl_add q))
            e (update_events-Logger (efd q) (target q) Epoll.reads_events epoll_ctl_add q))

  conn-Logger :
      (address : Address) (id : ℕ) (p : Poll)
      → (p.logger ≡ false → (id == 0) ≡ false)
      → Runs (Logger p.logger) (Epoll.conn address id p)
  unfolding Epoll.conn Epoll.connecttopeer Epoll.handle_connect open_connection system
  conn-Logger address id p h = elim (Bool-cases (id == 0)) [
    | inl a ↦
        let b : p.logger ≡ true = ground (arith, a, h, Bool-cases p.logger) in
        rw (a, b) (watched-Logger (λ q. p.epollfd) (λ q. (open_connection address p).0) _)
    | inr a ↦ rw a (watched-Logger (λ q. p.epollfd) (λ q. (open_connection address p).0) _)
  ]

  listenp-Goes : (p : Poll) → Runs (Logger p.logger) (Epoll.listenp p)
  unfolding Epoll.listenp system
  listenp-Goes p =
      watched-Logger (λ q. q.epollfd) (λ q. q.listenfd)
        (record p { calls = listen p.listenfd ∷ p.calls })

  connect_peers-Goes :
      (peers : List (ℕ × Address)) (n : Node)
      → (n.kque.logger ≡ false → elem 0 (map (λ e. e.0) peers) ≡ false)
      → Goes (connect_peers peers n)
  unfolding connect_peers
  connect_peers-Goes [] n h = tt
  connect_peers-Goes ((id, address) ∷ peers) n h =
      bind-Runs (Logger n.kque.logger) (λ _. Unit) (Epoll.conn address id n.kque) _
        (conn-Logger address id n.kque (λ e. ground (arith, h e)))
        (λ k e.
          connect_peers-Goes peers
            (record { raft = send_add_node id (add_node id n.raft); kque = k })
            (λ f. ground (arith, h (sym e ∙ f))))

  start-Goes :
      (peers : List (ℕ × Address)) (n : Node)
      → (n.kque.logger ≡ false → elem 0 (map (λ e. e.0) peers) ≡ false)
      → Goes (start peers n)
  unfolding start
  start-Goes peers n h =
      bind-Runs (Logger n.kque.logger) (λ _. Unit) (Epoll.listenp n.kque) _ (listenp-Goes n.kque)
        (λ k e.
          connect_peers-Goes peers (record { raft = step_down 1 0 n.raft; kque = k })
            (λ f. h (sym e ∙ f)))

make_raft-Sound :
    ⦃c : Codec⦄ (conf : Config) (draws : ℕ → ℕ) (storage : Storage)
    → storage.file ≡ none
    → (conf.timeout ≡ none → conf.raftlog ≡ [])
    → Returns Sound (make_raft conf draws storage)
unfolding make_raft
make_raft-Sound conf draws storage f h = elim (Option-cases conf.timeout) [
  | inl e ↦ rw (e, h e) (create-Sound conf.id 10 150 draws storage f)
  | inr (t, e) ↦
      rw e (create-Sound conf.id (u32 t.heartbeat_timeout) (u32 t.election_timeout) draws storage f)
]

module _ ⦃os : Kernel⦄ ⦃c : Codec⦄ (o : Obliges os) where
  start-Sound :
      (peers : List (ℕ × Address)) (n : Node)
      → (n.kque.logger ≡ false → elem 0 (map (λ e. e.0) peers) ≡ false)
      → Sound n.raft
      → Runs (λ n'. (ticks : ℕ) → Returns Sound (tick_times ticks n'.raft)) (start peers n)
  start-Sound peers n l v = go (start peers n) (start-Goes o peers n l) (start-raft peers n)
    where
      go :
          (m : Process Node)
          → Goes m
          → IfRuns (λ n'. n'.raft ≡ init (map (λ e. e.0) peers) n.raft) m
          → Runs (λ n'. (ticks : ℕ) → Returns Sound (tick_times ticks n'.raft)) m
      go (runs n') g e = λ ticks.
          tick_times-Sound ticks n'.raft (rw e (init-Sound (map (λ e. e.0) peers) n.raft v))
      go exits g e = g
      go spins g e = g
      go faults g e = g

  -- A node whose id is not 0, that is made from its configuration without a file and in a system
  -- that lets it set flags and events, comes to the end of its start, and is sound then and after
  -- each of any number of ticks, all of which have a defined result; if the path of a log is not
  -- given without the timeouts, and its socket can be bound or none of its peers has the id 0.
  pub new_node-Sound :
      (named : Bool) (conf : Config) (draws : ℕ → ℕ) (storage : Storage)
      → conf.id ≢ 0
      → storage.file ≡ none
      → (conf.timeout ≡ none → conf.raftlog ≡ [])
      → (os.answer (
              bind (os.answer (socket ∷ create_queue ∷ [])) conf.socket
              ∷ socket
              ∷ create_queue
              ∷ [])
            ≢ 0
          → elem 0 (map (λ e. e.0) conf.peers) ≡ false)
      → Runs
          (λ n. (ticks : ℕ) → Returns Sound (tick_times ticks n.raft))
          (new_node named conf draws storage)
  unfolding new_node Epoll.new_epoll
  new_node-Sound named conf draws storage i f h b =
      let (r, e, v) =
        Returns-ok Sound (make_raft conf draws storage) (make_raft-Sound conf draws storage f h) in
      let k : (named && conf.id == 0) ≡ false = ground arith in
      rw (k, e)
        (start-Sound conf.peers (record { raft = r; kque = Epoll.new_epoll conf.socket 1024 })
          (λ e. b (ground (arith, e))) v)
