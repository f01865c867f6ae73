-- ===== src/Device/History.antt =====
-- The device over any history of opens, reads and closes.
use ksort.Base.{is_negative}
use ksort.Run.{Ensures-ok}
use ksort.Base.{
  ℕ, zero, suc, ◌+◌, ◌-◌, ◌*◌, ◌%◌, ◌^◌, ◌≤◌, ◌≡◌, refl, sym, ap, ◌∙◌, List, Option, none, some,
  Bool, true, false, ℤ, pos, negsuc, ◌==◌, ltb, if◌then◌else◌, arith,
}
use mathlib.Core.Bool.{true≢false}
use ksort.Run.{ok, Ensures, ensures, faults, Ensures-bind, Ensures-any, Ensures-if}
use ksort.Xoroshiro.{State, seed, jump}
use ksort.Xoroshiro.Invert.{IsState, after, after-IsState}
use ksort.Xoroshiro.Commute.{jumped, after-jumped, after-add}
use ksort.Device.{
  Mutex, IsMutex, Device, Memory, compared_sorts, test_len, fill, sort_rounds, copy_out, open_with,
  dev_open, dev_release, dev_read,
}
use ksort.Device.Rounds.{fill-after}

-- the state that xoro_init sets
abbrev pub first_state : State
first_state = record { s0 = 314159265; s1 = 1618033989 }

first-IsState : IsState first_state
first-IsState = record { first = omega arith; second = omega arith }

read_words :
    (o n : ℕ) {s : State}
    → s ≡ jumped o (after (n * test_len) first_state)
    → after test_len s ≡ jumped o (after (suc n * test_len) first_state)
read_words o n e =
    let longer : test_len + n * test_len ≡ suc n * test_len = omega arith in
    let v = after-IsState (n * test_len) first_state first-IsState in
    ap (after test_len) e
    ∙ after-jumped test_len o (after (n * test_len) first_state) v
    ∙ ap (jumped o) (after-add test_len (n * test_len) first_state)
    ∙ ap (λ k. jumped o (after k first_state)) longer

module _ {M : Type 0} where
  -- the device after a read
  abbrev was_read : ℕ → Device M → Device M
  was_read n_notcopied d = record {
    mutex = d.mutex;
    n_opens = d.n_opens;
    prng = after test_len d.prng;
    preempt = if n_notcopied == 0 then d.preempt else d.preempt + 1;
  }

  copied-IsRead :
      (n_notcopied len : ℕ) (passed : List Bool) (d : Device M)
      → Ensures
          (λ (r : Device M × ℤ × List Bool). r.0 ≡ was_read n_notcopied d)
          (copy_out n_notcopied len passed (after test_len d.prng) d)
  unfolding copy_out
  copied-IsRead n_notcopied len passed d =
      Ensures-if (ltb 136 len) (λ _. faults)
        λ _.
          Ensures-if (n_notcopied == 0)
            (λ e.
              let back : d.preempt + 1 - 1 ≡ d.preempt = omega arith in ensures (rw (e, back) refl))
            λ e. ensures (rw e refl)

  was_read-IsRead :
      (memory : Memory) (n_notcopied len : ℕ) (d : Device M)
      → Ensures
          (λ (r : Device M × ℤ × List Bool). r.0 ≡ was_read n_notcopied d)
          (dev_read memory n_notcopied len d)
  unfolding dev_read
  was_read-IsRead memory n_notcopied len d =
      Ensures-if memory.arrays
        (λ _.
          Ensures-bind (Ensures-any (sort_rounds (compared_sorts memory) (fill test_len d.prng).0))
            λ passed _. rw (fill-after test_len d.prng) (copied-IsRead n_notcopied len passed d))
        λ _. faults

  module _ (ops : Mutex M) (locked : M → Bool) where
    -- The device after `opens` successful opens, of which `readers` are not closed yet, and after `reads`
    -- reads, of which `failed` could not copy. Only a reader reads or closes.
    pub data Reachable : ℕ → ℕ → ℕ → ℕ → Device M → Type 0 where
      start :
          {m : M}
          → locked m ≡ false
          → Reachable 0 0 0 0
              (record { mutex = m; n_opens = 0; prng = seed 314159265 1618033989; preempt = 0 })
      opens :
          {o r n f : ℕ} {d d' : Device M}
          → Reachable o r n f d
          → dev_open ops d ≡ (d', pos 0)
          → Reachable (suc o) (suc r) n f d'
      busy :
          {o r n f : ℕ} {d d' : Device M}
          → Reachable o r n f d
          → dev_open ops d ≡ (d', negsuc 15)
          → Reachable o r n f d'
      reads :
          {o r n f : ℕ} {d d' : Device M} (memory : Memory) (n_notcopied len : ℕ) (result : ℤ)
          (passed : List Bool)
          → Reachable o (suc r) n f d
          → dev_read memory n_notcopied len d ≡ ok (d', result, passed)
          → Reachable o (suc r) (suc n) (if n_notcopied == 0 then f else f + 1) d'
      closes :
          {o r n f : ℕ} {d d' : Device M} {result : ℤ}
          → Reachable o (suc r) n f d
          → dev_release ops d ≡ (d', result)
          → Reachable o r n f d'

    pub record DeviceInv (o r n f : ℕ) (d : Device M) : Type 0 where
      pub lock : locked d.mutex ≡ ltb 0 r
      pub single : r ≤ 1
      pub count : d.n_opens ≡ o % 2 ^ 32
      pub words : d.prng ≡ jumped o (after (n * test_len) first_state)
      pub nesting : d.preempt ≡ f

    opened-DeviceInv :
        {o r n f : ℕ} (m : M) (d : Device M)
        → locked m ≡ true
        → DeviceInv o r n f d
        → DeviceInv (suc o) 1 n f (open_with ops (some m) d).0
    unfolding open_with
    opened-DeviceInv m d taken v = record {
      lock = taken;
      single = omega arith;
      count = let c = v.count in omega arith;
      words = ap jump v.words;
      nesting = v.nesting;
    }

    opened_with :
        (t : Option M) (d : Device M) {d' : Device M}
        → open_with ops t d ≡ (d', pos 0)
        → (m : M) × (t ≡ some m) × (d' ≡ (open_with ops (some m) d).0)
    unfolding open_with
    opened_with none d e = absurd (true≢false (ap (λ x. is_negative x.1) e))
    opened_with (some m) d e = (m, refl, sym (ap (λ x. x.0) e))

    busy_with :
        (t : Option M) (d : Device M) {d' : Device M} → open_with ops t d ≡ (d', negsuc 15) → d' ≡ d
    unfolding open_with
    busy_with none d e = sym (ap (λ x. x.0) e)
    busy_with (some m) d e = absurd (true≢false (sym (ap (λ x. is_negative x.1) e)))

    module _ (law : IsMutex ops locked) where
      locked_by :
          (m m' : M) (b : Bool)
          → locked m ≡ b
          → ops.trylock m ≡ some m'
          → (locked m ≡ false) × (locked m' ≡ true)
      locked_by m m' true l e = let none_e = law.trylock-locked m l in absurd (cc)
      locked_by m m' false l e = let (taken, e', l') = law.trylock-free m l in (l, cc)

      opens-DeviceInv :
          {o r n f : ℕ} {d d' : Device M}
          → DeviceInv o r n f d
          → dev_open ops d ≡ (d', pos 0)
          → DeviceInv (suc o) (suc r) n f d'
      unfolding dev_open
      opens-DeviceInv {r = r} {d = d} v e =
          let (m, t, e') = opened_with (ops.trylock d.mutex) d e in
          let (free, taken) = locked_by d.mutex m (locked d.mutex) refl t in
          let none_before : r ≡ 0 = ground (arith, v.lock) in
          rw (e', none_before) (opened-DeviceInv m d taken v)

      reads-DeviceInv :
          {o r n f : ℕ} {d d' : Device M} (n_notcopied : ℕ)
          → DeviceInv o r n f d
          → d' ≡ was_read n_notcopied d
          → DeviceInv o r (suc n) (if n_notcopied == 0 then f else f + 1) d'
      reads-DeviceInv {o} {n = n} {d = d} n_notcopied v e = rw e (record {
        lock = v.lock;
        single = v.single;
        count = v.count;
        words = read_words o n v.words;
        nesting = ground (arith, v.nesting);
      })

      -- For a mutex that behaves as documented and any history of opens, reads and closes of the device,
      -- in which only a reader reads or closes: there is at most one reader, and the mutex is locked
      -- exactly while there is one; n_opens is the number of successful opens modulo 2 ^ 32; the
      -- generator is where that many jumps lead from the seed advanced by ten steps a read, in
      -- whatever order opens and reads came; and preemption stays disabled once for each read whose
      -- copy failed.
      pub Reachable-DeviceInv :
          {o r n f : ℕ} {d : Device M} → Reachable o r n f d → DeviceInv o r n f d
      unfolding seed dev_open dev_release
      Reachable-DeviceInv (start free) = record {
        lock = free;
        single = omega arith;
        count = refl;
        words = refl;
        nesting = refl;
      }
      Reachable-DeviceInv (opens h e) = opens-DeviceInv (Reachable-DeviceInv h) e
      Reachable-DeviceInv (busy {d = d} h e) =
          rw (busy_with (ops.trylock d.mutex) d e) (Reachable-DeviceInv h)
      Reachable-DeviceInv (reads {d = d} memory n_notcopied len result passed h e) =
          reads-DeviceInv n_notcopied (Reachable-DeviceInv h)
            (Ensures-ok (rw e at (was_read-IsRead memory n_notcopied len d)))
      Reachable-DeviceInv (closes {r = r} {d = d} h e) =
          let v = Reachable-DeviceInv h in
          let none_left : ltb 0 r ≡ false = ground (arith, v.single) in
          rw (sym (ap (λ x. x.0) e)) (record {
            lock = law.unlock-free d.mutex ∙ sym none_left;
            single = omega arith;
            count = v.count;
            words = v.words;
            nesting = v.nesting;
          })

      -- For such a mutex and history, an open succeeds while nobody reads, and fails with EBUSY while
      -- somebody does.
      pub Reachable-open :
          {o r n f : ℕ} {d : Device M}
          → Reachable o r n f d
          → (dev_open ops d).1 ≡ (if r == 0 then pos 0 else negsuc 15)
      unfolding dev_open open_with
      Reachable-open {r = zero} {d = d} h =
          let (m, e, l) = law.trylock-free d.mutex (Reachable-DeviceInv h).lock in rw e refl
      Reachable-open {r = suc r} {d = d} h =
          let taken : locked d.mutex ≡ true = ground (arith, (Reachable-DeviceInv h).lock) in
          let nonzero : (suc r == 0) ≡ false = ground arith in
          rw (law.trylock-locked d.mutex taken, nonzero) refl
