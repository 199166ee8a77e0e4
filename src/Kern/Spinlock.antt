-- ===== src/Kern/Spinlock.antt =====
-- The lock of sched/kern/spinlock.c with any number of CPUs, one load, store or exchange of the lock at a
-- time.
use mathlib.Core.Path.{subst}
use sis_ops.Common.{
  ℕ, ◌≡◌, ◌≢◌, refl, sym, ap, ◌∙◌, inl, inr, List, [], ◌∷◌, Option, some, none, Bool, true, false,
  if◌then◌else◌, ◌==◌, arith, Bool-cases,
}

-- Where a CPU stands: outside; in `holding` of `spin_lock`, where `locked` was set; in the loop of
-- `spin_lock`; behind it, before `lk->cpu` is set; with the lock; in `holding` of `spin_unlock`, where
-- `locked` was set; behind the test; behind `lk->cpu = 0`; or in a panic.
pub data Place : Type 0 where
  outside asking spinning taken inside checking freeing leaving stopped : Place

pub record Spinlock : Type 0 where
  pub locked : Bool
  pub cpu : Option ℕ
  pub places : ℕ → Place

abbrev put : (ℕ → Place) → ℕ → Place → ℕ → Place
put places i p = λ j. if j == i then p else places j

-- `lock->cpu == thiscpu`, on CPU `i`.
abbrev cpu_is : ℕ → Spinlock → Bool
cpu_is i s = elim s.cpu [ none ↦ false | some c ↦ c == i ]

-- The next load, store or exchange of CPU `i` at a place; `xchg` reads and writes at once. A CPU locks and
-- unlocks in turn.
step_from : Place → ℕ → Spinlock → Spinlock
step_from outside i s = record s { places = put s.places i (if s.locked then asking else spinning) }
step_from asking i s = record s {
  places = put s.places i (if cpu_is i s then stopped else spinning);
}
step_from spinning i s =
    if s.locked then s else record s { locked = true; places = put s.places i taken }
step_from taken i s = record s { cpu = some i; places = put s.places i inside }
step_from inside i s = record s { places = put s.places i (if s.locked then checking else stopped) }
step_from checking i s = record s {
  places = put s.places i (if cpu_is i s then freeing else stopped);
}
step_from freeing i s = record s { cpu = none; places = put s.places i leaving }
step_from leaving i s = record s { locked = false; places = put s.places i outside }
step_from stopped i s = s

-- The CPUs take turns in any order.
pub run : List ℕ → Spinlock → Spinlock
unfolding step_from
run [] s = s
run (i ∷ is) s = run is (step_from (s.places i) i s)

-- As `__spin_initlock` leaves it.
abbrev pub start : Spinlock
start = record { locked = false; cpu = none; places = λ i. outside }

-- Between the two stores to `lk->cpu`.
abbrev owns : Place → Bool
owns inside = true
owns checking = true
owns freeing = true
owns _ = false

-- Between the two exchanges.
abbrev busy : Place → Bool
busy taken = true
busy inside = true
busy checking = true
busy freeing = true
busy leaving = true
busy _ = false

-- At most one CPU is between the exchanges, only while the lock is locked, and `lk->cpu` is the CPU that
-- holds it.
pub record IsLock (s : Spinlock) : Type 0 where
  pub locks : (i : ℕ) → busy (s.places i) ≡ true → s.locked ≡ true
  pub one : (i j : ℕ) → busy (s.places i) ≡ true → busy (s.places j) ≡ true → i ≡ j
  pub holder : (i : ℕ) → owns (s.places i) ≡ true → s.cpu ≡ some i
  pub held : (i : ℕ) → s.cpu ≡ some i → owns (s.places i) ≡ true
  pub runs : (i : ℕ) → s.places i ≢ stopped

put_self : (pl : ℕ → Place) (i : ℕ) (p : Place) → put pl i p i ≡ p
put_self pl i p = ground arith

-- What stands at a place where CPU `i` does not go has not moved.
kept : (pl : ℕ → Place) (i j : ℕ) (p q : Place) → put pl i p j ≡ q → p ≢ q → (j ≢ i) × (pl j ≡ q)
kept pl i j p q e n = elim (Bool-cases (j == i)) [
  | inl at ↦ absurd (n (here at e))
  | inr off ↦ ((λ z. ground arith), there off e)
]
  where
    here : (j == i) ≡ true → put pl i p j ≡ q → p ≡ q
    here at e = ground arith

    there : (j == i) ≡ false → put pl i p j ≡ q → pl j ≡ q
    there off e = ground arith

-- What a test says of where a CPU stands, before and after a move of CPU `i`.
module _ (f : Place → Bool) (pl : ℕ → Place) (i j : ℕ) (p : Place) where
  still : f p ≡ false → f (put pl i p j) ≡ true → (j ≢ i) × (f (pl j) ≡ true)
  still b c = elim (Bool-cases (j == i)) [
    | inl at ↦ absurd (ground arith)
    | inr off ↦ ((λ z. ground arith), ground arith)
  ]

  stays : f (pl i) ≡ false → f (pl j) ≡ true → f (put pl i p j) ≡ true
  stays b c = elim (Bool-cases (j == i)) [
    | inl at ↦ let z : j ≡ i = ground arith in absurd (differ (ap (λ (x : ℕ). f (pl x)) z))
    | inr off ↦ ground arith
  ]
    where
      differ : f (pl j) ≡ f (pl i) → ⊥
      differ e = ground arith

  was : f (pl i) ≡ true → f (put pl i p j) ≡ true → f (pl j) ≡ true
  was b c = elim (Bool-cases (j == i)) [
    | inl at ↦ let z : j ≡ i = ground arith in ap (λ (x : ℕ). f (pl x)) z ∙ b
    | inr off ↦ ground arith
  ]

  keeps : f p ≡ true → f (pl j) ≡ true → f (put pl i p j) ≡ true
  keeps b c = ground arith

module _ (i : ℕ) (s : Spinlock) (v : IsLock s) where
  -- A move between places without the lock.
  step-idle :
      (p : Place)
      → busy p ≡ false
      → owns p ≡ false
      → p ≢ stopped
      → owns (s.places i) ≡ false
      → IsLock (record s { places = put s.places i p })
  step-idle p b o n e = record {
    locks = λ j c. v.locks j (still busy s.places i j p b c).1;
    one = λ j k c d. v.one j k (still busy s.places i j p b c).1 (still busy s.places i k p b d).1;
    holder = λ j c. v.holder j (still owns s.places i j p o c).1;
    held = λ j h. stays owns s.places i j p e (v.held j h);
    runs = λ j h. v.runs j (kept s.places i j p stopped h n).1;
  }

  -- A move between places with the lock.
  step-owning :
      (p : Place)
      → owns p ≡ true
      → p ≢ stopped
      → owns (s.places i) ≡ true
      → busy (s.places i) ≡ true
      → IsLock (record s { places = put s.places i p })
  step-owning p o n e b = record {
    locks = λ j c. v.locks j (was busy s.places i j p b c);
    one = λ j k c d. v.one j k (was busy s.places i j p b c) (was busy s.places i k p b d);
    holder = λ j c. v.holder j (was owns s.places i j p e c);
    held = λ j h. keeps owns s.places i j p o (v.held j h);
    runs = λ j h. v.runs j (kept s.places i j p stopped h n).1;
  }

  step-taken :
      s.places i ≡ spinning
      → s.locked ≡ false
      → IsLock (record s { locked = true; places = put s.places i taken })
  step-taken e free = record {
    locks = λ j b. refl;
    one = λ j k b c. mine j b ∙ sym (mine k c);
    holder = λ j h. v.holder j (still owns s.places i j taken refl h).1;
    held = λ j h. stays owns s.places i j taken (ap owns e) (v.held j h);
    runs = λ j h. v.runs j (kept s.places i j taken stopped h (λ z. cc)).1;
  }
    where
      mine : (j : ℕ) → busy (put s.places i taken j) ≡ true → j ≡ i
      mine j b = elim (Bool-cases (j == i)) [
        | inl at ↦ ground arith
        | inr off ↦ absurd (let l = v.locks j (ground arith) in cc)
      ]

  step-inside :
      s.places i ≡ taken → IsLock (record s { cpu = some i; places = put s.places i inside })
  step-inside e = record {
    locks = λ j b. v.locks j (old j b);
    one = λ j k b c. v.one j k (old j b) (old k c);
    holder = λ j h. ap some (v.one i j now (old j (owns-busy (put s.places i inside j) h)));
    held = λ j h. let z : i ≡ j = ground arith in rw (← z) (ap owns (put_self s.places i inside));
    runs = λ j h. v.runs j (kept s.places i j inside stopped h (λ z. cc)).1;
  }
    where
      now : busy (s.places i) ≡ true
      now = ap busy e

      old : (j : ℕ) → busy (put s.places i inside j) ≡ true → busy (s.places j) ≡ true
      old j b = was busy s.places i j inside now b

      owns-busy : (p : Place) → owns p ≡ true → busy p ≡ true
      owns-busy p o = ground arith

  step-leaving :
      s.places i ≡ freeing → IsLock (record s { cpu = none; places = put s.places i leaving })
  step-leaving e = record {
    locks = λ j b. v.locks j (old j b);
    one = λ j k b c. v.one j k (old j b) (old k c);
    holder = λ j h.
        let k = still owns s.places i j leaving refl h in
        absurd (k.0 (v.one j i (owns-busy (s.places j) k.1) now));
    held = λ j h. absurd (cc);
    runs = λ j h. v.runs j (kept s.places i j leaving stopped h (λ z. cc)).1;
  }
    where
      now : busy (s.places i) ≡ true
      now = ap busy e

      old : (j : ℕ) → busy (put s.places i leaving j) ≡ true → busy (s.places j) ≡ true
      old j b = was busy s.places i j leaving now b

      owns-busy : (p : Place) → owns p ≡ true → busy p ≡ true
      owns-busy p o = ground arith

  step-free :
      s.places i ≡ leaving → IsLock (record s { locked = false; places = put s.places i outside })
  step-free e = record {
    locks = λ j b.
        let k = still busy s.places i j outside refl b in absurd (k.0 (v.one j i k.1 (ap busy e)));
    one = λ j k b c.
        v.one j k (still busy s.places i j outside refl b).1
          (still busy s.places i k outside refl c).1;
    holder = λ j h. v.holder j (still owns s.places i j outside refl h).1;
    held = λ j h. stays owns s.places i j outside (ap owns e) (v.held j h);
    runs = λ j h. v.runs j (kept s.places i j outside stopped h (λ z. cc)).1;
  }

  -- `lk->cpu` is the CPU where it owns the lock, and not where it does not.
  cpu-owner : owns (s.places i) ≡ true → cpu_is i s ≡ true
  cpu-owner o = let h = v.holder i o in ground arith

  cpu-other : owns (s.places i) ≡ false → cpu_is i s ≡ false
  cpu-other o = elim (Bool-cases (cpu_is i s)) [
    | inl t ↦ let h = v.held i (cpu_of t) in absurd (cc)
    | inr f ↦ f
  ]
    where
      cpu_of : cpu_is i s ≡ true → s.cpu ≡ some i
      cpu_of t = ground arith

Place-IsLock :
    (p : Place) (i : ℕ) (s : Spinlock) → s.places i ≡ p → IsLock s → IsLock (step_from p i s)
unfolding step_from
Place-IsLock outside i s e v =
    step-idle i s v (if s.locked then asking else spinning) (ground arith) (ground arith)
      (λ z. ground arith) (ap owns e)
Place-IsLock asking i s e v =
    rw (cpu-other i s v (ap owns e)) (step-idle i s v spinning refl refl (λ z. cc) (ap owns e))
Place-IsLock spinning i s e v = elim (Bool-cases s.locked) [
  | inl full ↦ subst IsLock (sym (spins i s full)) v
  | inr free ↦ rw free (step-taken i s v e free)
]
  where
    spins : (i : ℕ) (s : Spinlock) → s.locked ≡ true → step_from spinning i s ≡ s
    spins i s full = ground arith
Place-IsLock taken i s e v = step-inside i s v e
Place-IsLock inside i s e v =
    subst
      (λ (b : Bool).
        IsLock (record s { places = put s.places i (if b then checking else stopped) }))
      (sym (v.locks i (ap busy e)))
      (step-owning i s v checking refl (λ z. cc) (ap owns e) (ap busy e))
Place-IsLock checking i s e v =
    rw (cpu-owner i s v (ap owns e))
      (step-owning i s v freeing refl (λ z. cc) (ap owns e) (ap busy e))
Place-IsLock freeing i s e v = step-leaving i s v e
Place-IsLock leaving i s e v = step-free i s v e
Place-IsLock stopped i s e v = v

run-IsLock : (is : List ℕ) (s : Spinlock) → IsLock s → IsLock (run is s)
unfolding run
run-IsLock [] s v = v
run-IsLock (i ∷ is) s v =
    run-IsLock is (step_from (s.places i) i s) (Place-IsLock (s.places i) i s refl v)

start-IsLock : IsLock start
start-IsLock = record {
  locks = λ i b. cc;
  one = λ i j b c. cc;
  holder = λ i e. cc;
  held = λ i e. cc;
  runs = λ i e. cc;
}

-- In whatever order the CPUs take their turns: no two of them are between the exchange that takes the
-- lock and the one that frees it, none is there while the lock is free, the CPU that holds the lock is the
-- one in `lk->cpu`, and the checks for a CPU that takes the lock twice or frees what it does not hold
-- never panic.
pub run-start : (is : List ℕ) → IsLock (run is start)
run-start is = run-IsLock is start start-IsLock
