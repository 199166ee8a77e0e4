-- ===== src/Strings/Buffer.antt =====
-- Where the characters of `vprintfmt` go: `vsnprintf` of sched/lib/printfmt.c, and the `cprintf` of user
-- programs, sched/lib/printf.c.
use sis_ops.Common.{
  ℕ, zero, suc, ◌+◌, ◌<◌, ◌≤◌, ◌≡◌, ◌≢◌, refl, sym, ap, ap₂, ◌∙◌, inl, inr, List, [], ◌∷◌, ◌++◌,
  Option, some, none, true, false, if◌then◌else◌, ◌==◌, ltb, arith, Bool-cases, All, ℤ, pos, negsuc,
  length, set, take, paste, length-append, length-set,
}
use mathlib.Core.List.{append-nil, append_assoc}
use sis_ops.Strings.Format.{Arg, vprintfmt}

-- The memory of the caller from `buf` on, the place of `buf` and of `ebuf` in it, and `cnt`.
pub record SprintBuf : Type 0 where
  pub bytes : List ℕ
  pub buf : ℕ
  pub ebuf : ℕ
  pub cnt : ℕ

sprintputch : ℕ → SprintBuf → SprintBuf
sprintputch c b =
    if ltb b.buf b.ebuf
    then record b { bytes = set b.bytes b.buf c; buf = b.buf + 1; cnt = b.cnt + 1 }
    else record b { cnt = b.cnt + 1 }

-- All the characters, one after the other.
put_all : List ℕ → SprintBuf → SprintBuf
unfolding sprintputch
put_all [] b = b
put_all (c ∷ s) b = put_all s (sprintputch c b)

-- -E_INVAL
abbrev minus_e_inval : ℤ
minus_e_inval = negsuc 2

-- The text is put into the buffer, and a NUL behind it.
put_text : List ℕ → ℕ → Option (List ℕ) → Option (ℤ × List ℕ)
unfolding put_all
put_text bytes n none = none
put_text bytes n (some out) =
    let b = put_all out (record { bytes = bytes; buf = 0; ebuf = n; cnt = 0 }) in
    some (pos b.cnt, set b.bytes b.buf 0)

-- The result, and the memory. A null `buf` is `none`, and so is a format that reads arguments of another kind.
pub vsnprintf : Option (List ℕ) → ℕ → List ℕ → List Arg → Option (ℤ × List ℕ)
unfolding put_text vprintfmt
vsnprintf none n fmt args = some (minus_e_inval, [])
vsnprintf (some bytes) zero fmt args = some (minus_e_inval, bytes)
vsnprintf (some bytes) (suc n) fmt args = put_text bytes n (vprintfmt fmt args)

-- The buffer of `cprintf`: `idx` characters, and what `sys_cputs` was called with, in order.
pub record PrintBuf : Type 0 where
  pub idx : ℕ
  pub cnt : ℕ
  pub buf : List ℕ
  pub calls : List (List ℕ)

putch : ℕ → PrintBuf → PrintBuf
putch c b =
    let bytes = set b.buf b.idx c in
    if b.idx + 1 == 255
    then record {
      idx = 0;
      cnt = b.cnt + 1;
      buf = bytes;
      calls = b.calls ++ (take (b.idx + 1) bytes ∷ []);
    }
    else record b { idx = b.idx + 1; cnt = b.cnt + 1; buf = bytes }

putch_all : List ℕ → PrintBuf → PrintBuf
unfolding putch
putch_all [] b = b
putch_all (c ∷ s) b = putch_all s (putch c b)

-- The text is put out through the buffer, with a last call for what is left in it.
put_out : List ℕ → Option (List ℕ) → Option (List (List ℕ) × ℕ)
unfolding putch_all
put_out buf none = none
put_out buf (some out) =
    let b = putch_all out (record { idx = 0; cnt = 0; buf = buf; calls = [] }) in
    some (b.calls ++ (take b.idx b.buf ∷ []), b.cnt)

-- The calls of `sys_cputs`, in order, and the result. `buf` is what the stack holds.
pub vcprintf : List ℕ → List ℕ → List Arg → Option (List (List ℕ) × ℕ)
unfolding put_out vprintfmt
vcprintf buf fmt args = put_out buf (vprintfmt fmt args)

set-paste :
    (p bytes : List ℕ) (c : ℕ) → set (paste p bytes) (length p) c ≡ paste (p ++ (c ∷ [])) bytes
set-paste [] [] c = refl
set-paste [] (b ∷ bytes) c = refl
set-paste (x ∷ p) [] c = refl
set-paste (x ∷ p) (b ∷ bytes) c = ap (λ (l : List ℕ). x ∷ l) (set-paste p bytes c)

length-snoc : (p : List ℕ) (c : ℕ) → length (p ++ (c ∷ [])) ≡ length p + 1
length-snoc p c = length-append p (c ∷ [])

-- The buffer once `p` was stored and `k` characters were put.
abbrev filled : List ℕ → ℕ → List ℕ → ℕ → SprintBuf
filled bytes n p k = record { bytes = paste p bytes; buf = length p; ebuf = n; cnt = k }

filled-snoc :
    (bytes p : List ℕ) (n k c : ℕ)
    → length p < n
    → sprintputch c (filled bytes n p k) ≡ filled bytes n (p ++ (c ∷ [])) (k + 1)
unfolding sprintputch
filled-snoc bytes p n k c h =
    let t : ltb (length p) n ≡ true = ground arith in
    rw t (
      ap₂ (λ (b : List ℕ) (i : ℕ). record { bytes = b; buf = i; ebuf = n; cnt = k + 1 })
        (set-paste p bytes c) (sym (length-snoc p c)))

filled-full :
    (bytes p : List ℕ) (n k c : ℕ)
    → length p ≡ n
    → sprintputch c (filled bytes n p k) ≡ filled bytes n p (k + 1)
unfolding sprintputch
filled-full bytes p n k c h = let t : ltb (length p) n ≡ false = ground arith in rw t refl

take_nil : (n : ℕ) → take {A = ℕ} n [] ≡ []
take_nil zero = refl
take_nil (suc n) = refl

filled_eq :
    (bytes p q : List ℕ) (n k l : ℕ) → p ≡ q → k ≡ l → filled bytes n p k ≡ filled bytes n q l
filled_eq bytes p q n k l e f = ap₂ (λ (x : List ℕ) (y : ℕ). filled bytes n x y) e f

put_all_lem :
    (bytes s p : List ℕ) (n r k : ℕ)
    → n ≡ length p + r
    → put_all s (filled bytes n p k) ≡ filled bytes n (p ++ take r s) (k + length s)
unfolding put_all
put_all_lem bytes [] p n r k h =
    filled_eq bytes p (p ++ take r []) n k (k + 0)
      (sym (append-nil p) ∙ ap (λ (l : List ℕ). p ++ l) (sym (take_nil r))) (omega arith)
put_all_lem bytes (c ∷ s) p n zero k h =
    ap (put_all s) (filled-full bytes p n k c (omega arith))
    ∙ put_all_lem bytes s p n zero (k + 1) h
    ∙ filled_eq bytes _ _ n _ _ refl (omega arith)
put_all_lem bytes (c ∷ s) p n (suc r) k h =
    ap (put_all s) (filled-snoc bytes p n k c (omega arith))
    ∙ put_all_lem bytes s (p ++ (c ∷ [])) n r (k + 1) (let l = length-snoc p c in omega (arith, l))
    ∙ filled_eq bytes _ _ n _ _ (append_assoc p (c ∷ []) (take r s)) (omega arith)

-- `vsnprintf` of at least one byte stores the beginning of the text, as much as there is room for, with a
-- NUL behind it, leaves the bytes behind that as they were, and returns the length of the whole text.
pub vsnprintf-paste :
    (bytes fmt out : List ℕ) (args : List Arg) (n : ℕ)
    → vprintfmt fmt args ≡ some out
    → vsnprintf (some bytes) (suc n) fmt args
      ≡ some (pos (length out), paste (take n out ++ (0 ∷ [])) bytes)
unfolding vsnprintf put_text
vsnprintf-paste bytes fmt out args n e =
    let all = put_all_lem bytes out [] n n 0 (omega arith) in
    ap (put_text bytes n) e
    ∙ ap (λ (b : SprintBuf). some (pos b.cnt, set b.bytes b.buf 0)) all
    ∙ (ap₂ (λ (i : ℕ) (l : List ℕ). some (pos i, l)) (omega arith) (set-paste (take n out) bytes 0))

-- The characters that are in the buffer, and those that went out.
abbrev joined : List (List ℕ) → List ℕ
joined [] = []
joined (s ∷ ss) = s ++ joined ss

joined-snoc : (ss : List (List ℕ)) (s : List ℕ) → joined (ss ++ (s ∷ [])) ≡ joined ss ++ s
joined-snoc [] s = append-nil s
joined-snoc (t ∷ ss) s =
    ap (λ (l : List ℕ). t ++ l) (joined-snoc ss s) ∙ sym (append_assoc t (joined ss) s)

take-suc :
    (xs : List ℕ) (i c : ℕ) → i < length xs → take (suc i) (set xs i c) ≡ take i xs ++ (c ∷ [])
take-suc [] i c h = absurd (omega arith)
take-suc (x ∷ xs) zero c h = refl
take-suc (x ∷ xs) (suc i) c h = ap (λ (l : List ℕ). x ∷ l) (take-suc xs i c (omega arith))

take-set :
    (xs : List ℕ) (i c : ℕ) → i < length xs → take (i + 1) (set xs i c) ≡ take i xs ++ (c ∷ [])
take-set xs i c h =
    let n : i + 1 ≡ suc i = omega arith in ap (λ (n : ℕ). take n (set xs i c)) n ∙ take-suc xs i c h

-- What was put so far.
abbrev so_far : PrintBuf → List ℕ
so_far b = joined b.calls ++ take b.idx b.buf

record IsPrinting (b : PrintBuf) : Type 0 where
  room : b.idx < 255
  size : length b.buf ≡ 256
  short : All (λ s. length s ≤ 255) b.calls

-- A character is put behind the others.
record Puts (c : ℕ) (b b' : PrintBuf) : Type 0 where
  printing : IsPrinting b'
  text : so_far b' ≡ so_far b ++ (c ∷ [])
  count : b'.cnt ≡ b.cnt + 1

All-snoc :
    (P : List ℕ → Type 0) (ss : List (List ℕ)) (s : List ℕ)
    → All P ss
    → P s
    → All P (ss ++ (s ∷ []))
All-snoc P [] s a p = (p, tt)
All-snoc P (t ∷ ss) s a p = (a.0, All-snoc P ss s a.1 p)

length-take : (n : ℕ) (xs : List ℕ) → length (take n xs) ≤ n
length-take zero xs = omega arith
length-take (suc n) [] = omega arith
length-take (suc n) (x ∷ xs) = let r = length-take n xs in omega (arith, r)

module _ (c : ℕ) (b : PrintBuf) (v : IsPrinting b) where
  bytes : List ℕ
  bytes = set b.buf b.idx c

  grown : take (b.idx + 1) bytes ≡ take b.idx b.buf ++ (c ∷ [])
  unfolding bytes
  grown = take-set b.buf b.idx c (let r = v.room in let z = v.size in omega (arith, r, z))

  size : length bytes ≡ 256
  unfolding bytes
  size = length-set b.buf b.idx c ∙ v.size

  abbrev kept : PrintBuf
  kept = record b { idx = b.idx + 1; cnt = b.cnt + 1; buf = bytes }

  kept-Puts : b.idx + 1 ≢ 255 → Puts c b kept
  kept-Puts n = record {
    printing = record {
      room = let r = v.room in omega (arith, r, n);
      size = size;
      short = v.short;
    };
    text =
        ap (λ (l : List ℕ). joined b.calls ++ l) grown
        ∙ sym (append_assoc (joined b.calls) (take b.idx b.buf) (c ∷ []));
    count = refl;
  }

  abbrev sent : PrintBuf
  sent = record {
    idx = 0;
    cnt = b.cnt + 1;
    buf = bytes;
    calls = b.calls ++ (take (b.idx + 1) bytes ∷ []);
  }

  sent-Puts : Puts c b sent
  sent-Puts = record {
    printing = record {
      room = omega arith;
      size = size;
      short =
          All-snoc (λ s. length s ≤ 255) b.calls (take (b.idx + 1) bytes) v.short
            (let l = length-take (b.idx + 1) bytes in let r = v.room in omega (arith, l, r));
    };
    text =
        append-nil (joined (b.calls ++ (take (b.idx + 1) bytes ∷ [])))
        ∙ joined-snoc b.calls (take (b.idx + 1) bytes)
        ∙ ap (λ (l : List ℕ). joined b.calls ++ l) grown
        ∙ sym (append_assoc (joined b.calls) (take b.idx b.buf) (c ∷ []));
    count = refl;
  }

  putch-Puts : Puts c b (putch c b)
  unfolding putch bytes
  putch-Puts = elim (Bool-cases (b.idx + 1 == 255)) [
    | inl t ↦ rw t sent-Puts
    | inr t ↦ rw t (kept-Puts (λ e. ground (arith, e)))
  ]

putch_all_lem :
    (s : List ℕ) (b : PrintBuf)
    → IsPrinting b
    → IsPrinting (putch_all s b)
      × (so_far (putch_all s b) ≡ so_far b ++ s)
      × ((putch_all s b).cnt ≡ b.cnt + length s)
unfolding putch_all
putch_all_lem [] b v = (v, sym (append-nil (so_far b)), omega arith)
putch_all_lem (c ∷ s) b v =
    let p = putch-Puts c b v in
    let r = putch_all_lem s (putch c b) p.printing in
    (
      r.0,
      r.1 ∙ ap (λ (l : List ℕ). l ++ s) p.text ∙ append_assoc (so_far b) (c ∷ []) s,
      (let n = p.count in let m = r.2 in omega (arith, n, m)),
    )

-- What `vcprintf` of a user program did.
pub record Printed (buf fmt : List ℕ) (args : List Arg) (out : List ℕ) : Type 0 where
  pub calls : List (List ℕ)
  pub result : vcprintf buf fmt args ≡ some (calls, length out)
  pub text : joined calls ≡ out
  pub short : All (λ s. length s ≤ 255) calls

-- `vcprintf` of a user program calls `sys_cputs` with at most 255 characters at a time; together they are
-- the text, and the result is its length.
pub vcprintf-Printed :
    (buf fmt out : List ℕ) (args : List Arg)
    → length buf ≡ 256
    → vprintfmt fmt args ≡ some out
    → Printed buf fmt args out
unfolding vcprintf put_out
vcprintf-Printed buf fmt out args size e =
    let start : PrintBuf = record { idx = 0; cnt = 0; buf = buf; calls = [] } in
    let b = putch_all out start in
    let r = putch_all_lem out start (record { room = omega arith; size = size; short = tt }) in
    record {
      calls = b.calls ++ (take b.idx b.buf ∷ []);
      result =
          ap (put_out buf) e
          ∙ ap (λ (n : ℕ). some (b.calls ++ (take b.idx b.buf ∷ []), n))
              (let m = r.2 in omega (arith, m));
      text = joined-snoc b.calls (take b.idx b.buf) ∙ r.1;
      short =
          All-snoc (λ s. length s ≤ 255) b.calls (take b.idx b.buf) r.0.short
            (let l = length-take b.idx b.buf in let m = r.0.room in omega (arith, l, m));
    }
