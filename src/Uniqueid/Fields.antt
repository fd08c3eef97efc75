-- ===== src/Uniqueid/Fields.antt =====
-- The fields of an id: when they are apart, and when they run into each other.
use Prim.Native.Nat.{◌^◌}
use sapphiredb.Base.{ℕ, ◌+◌, ◌-◌, ◌*◌, ◌%◌, ◌≤◌, ◌<◌, ◌≡◌, refl, none, some, u32, u64, arith}
use sapphiredb.Base.Bits.{or_low, or_high, or_odd, and_mask}
use sapphiredb.Uniqueid.{Uniform, Rand, get_timestamps, combine, rand, new_machineid, get_uniqueid}

get_timestamps_lem : (now : ℕ) → get_timestamps now ≡ now % 2199023255552 * 4194304
unfolding get_timestamps
get_timestamps_lem now =
    let high : u64 (now * 4194304) ≡ now % 4398046511104 * 4194304 = omega arith in
    rw high (omega (arith, and_mask 22 41 (now % 4398046511104)))

combine_lem :
    (now machineid seqid : ℕ)
    → machineid < 1024
    → seqid < 4096
    → combine (get_timestamps now) machineid seqid
      ≡ (now % 2199023255552 * 1024 + machineid) * 4096 + seqid
unfolding combine
combine_lem now machineid seqid a b =
    let time = now % 2199023255552 in
    let m : u32 (machineid * 4096) ≡ machineid * 4096 = omega arith in
    let together : time * 2 ^ 22 + machineid * 4096 ≡ (time * 1024 + machineid) * 2 ^ 12 =
      omega arith in
    rw (get_timestamps_lem now, m, or_low 22 time (machineid * 4096) (omega arith), together)
      (or_low 12 (time * 1024 + machineid) seqid b)

combine_repeats :
    (half machineid seqid : ℕ)
    → 1024 ≤ machineid
    → machineid < 2048
    → combine (get_timestamps (2 * half)) machineid seqid
      ≡ combine (get_timestamps (2 * half + 1)) machineid seqid
unfolding combine
combine_repeats half machineid seqid a b =
    let x = half % 1099511627776 in
    let even : (2 * half) % 2199023255552 ≡ 2 * x = omega arith in
    let odd : (2 * half + 1) % 2199023255552 ≡ 2 * x + 1 = omega arith in
    let rest = machineid * 4096 - 4194304 in
    let m : u32 (machineid * 4096) ≡ 1 * 2 ^ 22 + rest = omega arith in
    rw (
      get_timestamps_lem (2 * half),
      get_timestamps_lem (2 * half + 1),
      even,
      odd,
      m,
      or_high 22 (2 * x) 1 rest (omega arith),
      or_high 22 (2 * x + 1) 1 rest (omega arith),
      or_odd x,
    )

-- The first call of `rand` that a process makes is that of `machineid`: its bounds stay.
abbrev pub AfterStart : Rand → Type 0
AfterStart s = (seed : ℕ) × (s.started ≡ some (0, (0x000004ff, seed)))

module _ ⦃u : Uniform⦄ where
  pub new_machineid-AfterStart :
      (time : ℕ) (s : Rand)
      → s.started ≡ none
      → ((new_machineid time s).0 < 0x000004ff) × AfterStart (new_machineid time s).1
  unfolding new_machineid rand
  new_machineid-AfterStart time s e =
      rw e (u.draw_lt 0 0x000004ff time s.calls (omega arith), (time, refl))

  rand_lt : (time : ℕ) (s : Rand) → AfterStart s → (rand 0 0x00000fff time s).0 < 0x000004ff
  unfolding rand
  rand_lt time s (seed, e) = rw e (u.draw_lt 0 0x000004ff seed s.calls (omega arith))

  -- For a machine id below 1024, and once `machineid` was drawn: an id is the sum of its fields, the
  -- time modulo 2 ^ 41, the machine id and the drawn number, which is below 0x4ff; and it is below
  -- 2 ^ 63.
  pub get_uniqueid_lem :
      (now time machineid : ℕ) (s : Rand)
      → AfterStart s
      → machineid < 1024
      → let seqid = (rand 0 0x00000fff time s).0 in
        ((get_uniqueid now time machineid s).0
          ≡ (now % 2199023255552 * 1024 + machineid) * 4096 + seqid)
        × (seqid < 0x000004ff)
        × ((get_uniqueid now time machineid s).0 < 9223372036854775808)
  unfolding get_uniqueid
  get_uniqueid_lem now time machineid s a b =
      let l = rand_lt time s a in
      omega (arith, l, combine_lem now machineid (rand 0 0x00000fff time s).0 b (omega (arith, l)))

  -- Later ids are greater, whatever is drawn.
  pub get_uniqueid-later :
      (now later time₁ time₂ machineid : ℕ) (s t : Rand)
      → AfterStart s
      → AfterStart t
      → machineid < 1024
      → now < later
      → later < 2199023255552
      → (get_uniqueid now time₁ machineid s).0 < (get_uniqueid later time₂ machineid t).0
  get_uniqueid-later now later time₁ time₂ machineid s t a b m l e = omega (
    arith,
    get_uniqueid_lem now time₁ machineid s a m,
    get_uniqueid_lem later time₂ machineid t b m,
  )

  -- For a machine id from 1024 on and below 2048, the ids of an even millisecond and of the next one
  -- are the same, if the same number is drawn.
  pub get_uniqueid_repeats :
      (half time machineid : ℕ) (s : Rand)
      → 1024 ≤ machineid
      → machineid < 2048
      → (get_uniqueid (2 * half) time machineid s).0
        ≡ (get_uniqueid (2 * half + 1) time machineid s).0
  unfolding get_uniqueid
  get_uniqueid_repeats half time machineid s a b =
      combine_repeats half machineid (rand 0 0x00000fff time s).0 a b
