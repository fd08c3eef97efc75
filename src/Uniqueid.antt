-- ===== src/Uniqueid.antt =====
-- sapphiredb/common/uniqueid.h and uniqueid.cc: ids made of a time, a machine and a random number.
pub mod Fields
use Prim.Native.Nat.{bit_and, bit_or}
use sapphiredb.Base.{ℕ, ◌+◌, ◌*◌, ◌<◌, Option, none, some, u32, u64}

-- The number that `uniform_real_distribution<double>(min, max)` draws, truncated: it lies below `max`.
pub record Uniform : Type 0 where
  -- Its bounds, the seed of the engine, and how often the engine was asked before.
  pub draw : ℕ → ℕ → ℕ → ℕ → ℕ
  pub draw_lt : (min max seed calls : ℕ) → min < max → draw min max seed calls < max

-- The static variables of `rand`: what they were made from in the first call, and the calls so far.
pub record Rand : Type 0 where
  pub started : Option (ℕ × (ℕ × ℕ))
  pub calls : ℕ

abbrev first_call : ℕ × (ℕ × ℕ) → Option (ℕ × (ℕ × ℕ)) → ℕ × (ℕ × ℕ)
first_call args none = args
first_call args (some first) = first

-- The milliseconds since the epoch are `now`.
unfoldable pub get_timestamps : ℕ → ℕ
get_timestamps now = bit_and 0x7fffffffffc00000 (u64 (now * 4194304))

-- The three fields put together.
unfoldable pub combine : ℕ → ℕ → ℕ → ℕ
combine timestamps machineid seqid = bit_or (bit_or timestamps (u32 (machineid * 4096))) seqid

module _ ⦃u : Uniform⦄ where
  unfoldable pub rand : ℕ → ℕ → ℕ → Rand → ℕ × Rand
  rand min max seed s =
      let (lo, (hi, e)) = first_call (min, (max, seed)) s.started in
      (u.draw lo hi e s.calls, record { started = some (lo, (hi, e)); calls = s.calls + 1 })

  -- The initialiser of `machineid`, at `time(NULL)`.
  unfoldable pub new_machineid : ℕ → Rand → ℕ × Rand
  unfolding rand
  new_machineid time s = rand 0 0x000004ff time s

  unfoldable pub get_uniqueid : ℕ → ℕ → ℕ → Rand → ℕ × Rand
  unfolding rand get_timestamps combine
  get_uniqueid now time machineid s =
      let (seqid, s') = rand 0 0x00000fff time s in
      (combine (get_timestamps now) machineid seqid, s')
