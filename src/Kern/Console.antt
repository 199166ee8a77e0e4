-- ===== src/Kern/Console.antt =====
-- The input buffer of sched/kern/console.c. What a device delivers is a list of codes.
use mathlib.Core.List.{append-nil, append_assoc}
use sis_ops.Common.{
  ℕ, ◌+◌, ◌%◌, ◌<◌, ◌≡◌, ◌≢◌, refl, sym, ◌∙◌, inl, inr, List, [], ◌∷◌, ◌++◌, Option, some, none,
  true, false, if◌then◌else◌, ◌==◌, arith, Bool-cases, length, length-set, length-append, get_elem?,
  set, get_elem?-set_self, get_elem?-set_ne,
}

abbrev consbufsize : ℕ
consbufsize = 512

pub record Cons : Type 0 where
  pub buf : List ℕ
  pub rpos : ℕ
  pub wpos : ℕ

-- A position behind the end is the start.
abbrev wrap : ℕ → ℕ
wrap i = if i == consbufsize then 0 else i

-- One round of `cons_intr`, for a code that is not zero.
cons_put : ℕ → Cons → Cons
cons_put c s = record s { buf = set s.buf s.wpos (c % 256); wpos = wrap (s.wpos + 1) }

-- `cons_intr`, with what the device delivers until it has no more.
cons_intr : List ℕ → Cons → Cons
cons_intr [] s = s
cons_intr (c ∷ cs) s = cons_intr cs (if c == 0 then s else cons_put c s)

-- `cons_getc`, with what the two devices deliver when they are polled. `none` is a read outside.
pub cons_getc : List ℕ → List ℕ → Cons → Option (ℕ × Cons)
unfolding cons_intr
cons_getc serial kbd s =
    let s' = cons_intr kbd (cons_intr serial s) in
    if s'.rpos == s'.wpos then some (0, s') else elim (get_elem? s'.buf s'.rpos) [
      | none ↦ none
      | some c ↦ some (c, record s' { rpos = wrap (s'.rpos + 1) })
    ]

-- The codes between two positions.
abbrev Between : List ℕ → ℕ → ℕ → List ℕ → Type 0
Between buf i j [] = i ≡ j
Between buf i j (c ∷ q) = (i ≢ j) × (get_elem? buf i ≡ some c) × Between buf (wrap (i + 1)) j q

-- The buffer holds these codes, in this order.
pub record Holds (s : Cons) (q : List ℕ) : Type 0 where
  pub size : length s.buf ≡ consbufsize
  pub read : s.rpos < consbufsize
  pub write : s.wpos < consbufsize
  pub few : length q < consbufsize
  pub codes : Between s.buf s.rpos s.wpos q

Between-end :
    (buf : List ℕ) (i j : ℕ) (q : List ℕ)
    → i < consbufsize
    → Between buf i j q
    → (i + length q) % consbufsize ≡ j
Between-end buf i j [] h b = omega arith
Between-end buf i j (c ∷ q) h b =
    let rest = Between-end buf (wrap (i + 1)) j q (ground arith) b.2 in ground arith

Between-snoc :
    (buf : List ℕ) (i j c : ℕ) (q : List ℕ)
    → length buf ≡ consbufsize
    → i < consbufsize
    → j < consbufsize
    → length q < 511
    → Between buf i j q
    → Between (set buf j c) i (wrap (j + 1)) (q ++ (c ∷ []))
Between-snoc buf i j c [] s hi hj h b =
    (ground arith, rw b (get_elem?-set_self buf j c (omega arith)), rw b refl)
Between-snoc buf i j c (d ∷ q) s hi hj h b = (
  full,
  get_elem?-set_ne buf c (λ e. b.0 (sym e)) ∙ b.1,
  Between-snoc buf (wrap (i + 1)) j c q s (ground arith) hj (omega arith) b.2,
)
  where
    full : i ≢ wrap (j + 1)
    full e = let z = Between-end buf i j (d ∷ q) hi b in ground arith

-- The codes that are kept: a zero is none, and only the low byte counts.
unfoldable pub kept : List ℕ → List ℕ
kept [] = []
kept (c ∷ cs) = let more = kept cs in if c == 0 then more else (c % 256) ∷ more

cons_put-Holds :
    (c : ℕ) (s : Cons) (q : List ℕ)
    → Holds s q
    → length q < 511
    → Holds (cons_put c s) (q ++ ((c % 256) ∷ []))
unfolding cons_put
cons_put-Holds c s q v room = record {
  size = length-set s.buf s.wpos (c % 256) ∙ v.size;
  read = v.read;
  write = let w = v.write in ground arith;
  few = omega (arith, length-append q ((c % 256) ∷ []));
  codes = Between-snoc s.buf s.rpos s.wpos (c % 256) q v.size v.read v.write room v.codes;
}

cons_intr-Holds :
    (cs : List ℕ) (s : Cons) (q : List ℕ)
    → Holds s q
    → length q + length (kept cs) < consbufsize
    → Holds (cons_intr cs s) (q ++ kept cs)
unfolding cons_intr kept
cons_intr-Holds [] s q v room = rw (append-nil q) v
cons_intr-Holds (c ∷ cs) s q v room = elim (Bool-cases (c == 0)) [
  | inl z ↦ rw z (cons_intr-Holds cs s q v (kept-zero c cs q z room))
  | inr nz ↦
      let less = kept-code c cs q nz room in
      rw nz (
        rw (← append_assoc q ((c % 256) ∷ []) (kept cs)) (
          cons_intr-Holds cs (cons_put c s) (q ++ ((c % 256) ∷ []))
            (cons_put-Holds c s q v (omega arith))
            (omega (arith, length-append q ((c % 256) ∷ [])))))
]
  where
    kept-zero :
        (c : ℕ) (cs q : List ℕ)
        → (c == 0) ≡ true
        → length q + length (kept (c ∷ cs)) < consbufsize
        → length q + length (kept cs) < consbufsize
    kept-zero c cs q z room = ground arith

    kept-code :
        (c : ℕ) (cs q : List ℕ)
        → (c == 0) ≡ false
        → length q + length (kept (c ∷ cs)) < consbufsize
        → length q + length (kept cs) + 1 < consbufsize
    kept-code c cs q nz room = ground arith

-- What `cons_getc` gives when the buffer holds these codes: the first, or zero if there is none.
abbrev pub Got : List ℕ → Option (ℕ × Cons) → Type 0
Got [] r = (s' : Cons) × (r ≡ some (0, s')) × Holds s' []
Got (c ∷ q) r = (s' : Cons) × (r ≡ some (c, s')) × Holds s' q

get : Cons → Option (ℕ × Cons)
get s = if s.rpos == s.wpos then some (0, s) else elim (get_elem? s.buf s.rpos) [
  | none ↦ none
  | some c ↦ some (c, record s { rpos = wrap (s.rpos + 1) })
]

get-Got : (s : Cons) (q : List ℕ) → Holds s q → Got q (get s)
unfolding get
get-Got s [] v = (s, (let e = v.codes in ground arith), v)
get-Got s (c ∷ q) v =
    let r = v.read in
    (
      record s { rpos = wrap (s.rpos + 1) },
      (let here = v.codes.1 in let ne = v.codes.0 in ground arith),
      record {
        size = v.size;
        read = ground arith;
        write = v.write;
        few = omega (arith, v.few);
        codes = v.codes.2;
      },
    )

-- So long as there is room, the buffer is a queue: what the devices deliver is kept in order, less the
-- zeros, and `cons_getc` takes the first code of all, or gives zero if there is none.
pub cons_getc-Got :
    (serial kbd : List ℕ) (s : Cons) (q : List ℕ)
    → Holds s q
    → length q + length (kept serial) + length (kept kbd) < consbufsize
    → Got (q ++ kept serial ++ kept kbd) (cons_getc serial kbd s)
unfolding cons_getc get
cons_getc-Got serial kbd s q v room =
    get-Got (cons_intr kbd (cons_intr serial s)) (q ++ kept serial ++ kept kbd) (
      cons_intr-Holds kbd (cons_intr serial s) (q ++ kept serial)
        (cons_intr-Holds serial s q v (omega arith)) (omega (arith, length-append q (kept serial))))
