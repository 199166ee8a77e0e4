-- ===== src/Fs/Bytes.antt =====
-- Bytes written into an array and read back.
use sis_ops.Common.{
  ℕ, zero, suc, ◌+◌, ◌≤◌, ◌≡◌, refl, ap, List, [], ◌∷◌, ◌++◌, arith, set, length, paste, overwrite,
  drop, strlen, strncpy_bytes,
}
use sis_ops.Fs.Names.{NoByte}

-- A NUL written at the end of the string changes nothing.
pub set-strlen : (c d : List ℕ) → set c (strlen (c ++ d)) 0 ≡ c
unfolding strlen
set-strlen [] d = refl
set-strlen (zero ∷ c) d = refl
set-strlen (suc x ∷ c) d = ground (arith, set-strlen c d)

-- Bytes without a NUL, and as many as asked for, are copied as they are.
pub strncpy_bytes-append :
    (bytes rest : List ℕ) → NoByte 0 bytes → strncpy_bytes (length bytes) (bytes ++ rest) ≡ bytes
unfolding strncpy_bytes
strncpy_bytes-append [] rest h = refl
strncpy_bytes-append (zero ∷ bytes) rest h = absurd (h.0 refl)
strncpy_bytes-append (suc b ∷ bytes) rest h = ground (arith, strncpy_bytes-append bytes rest h.1)

pub strncpy_bytes_self :
    (bytes : List ℕ) → NoByte 0 bytes → strncpy_bytes (length bytes) bytes ≡ bytes
unfolding strncpy_bytes
strncpy_bytes_self [] h = refl
strncpy_bytes_self (zero ∷ bytes) h = absurd (h.0 refl)
strncpy_bytes_self (suc b ∷ bytes) h = ground (arith, strncpy_bytes_self bytes h.1)

drop-paste :
    (bytes c d : List ℕ)
    → length bytes ≤ length c
    → paste bytes c ++ d ≡ bytes ++ (drop (length bytes) c ++ d)
drop-paste [] c d h = refl
drop-paste (b ∷ bytes) [] d h = absurd (omega arith)
drop-paste (b ∷ bytes) (x ∷ c) d h = ap (◌∷◌ b) (drop-paste bytes c d (omega arith))

-- Behind the place written to stand the bytes written.
pub drop-overwrite :
    (n : ℕ) (bytes c d : List ℕ)
    → n + length bytes ≤ length c
    → drop n (overwrite n bytes c ++ d) ≡ bytes ++ (drop (length bytes) (drop n c) ++ d)
drop-overwrite zero bytes c d h = drop-paste bytes c d (omega arith)
drop-overwrite (suc n) bytes [] d h = absurd (omega arith)
drop-overwrite (suc n) bytes (x ∷ c) d h = drop-overwrite n bytes c d (omega arith)

-- Bytes written within or just behind a string leave what stands before them in the string.
strlen-overwrite :
    (n : ℕ) (bytes c d : List ℕ)
    → n ≤ strlen (c ++ d)
    → n + length bytes ≤ length c
    → n ≤ strlen (overwrite n bytes c ++ d)
unfolding strlen
strlen-overwrite zero bytes c d h k = omega arith
strlen-overwrite (suc n) bytes [] d h k = absurd (omega arith)
strlen-overwrite (suc n) bytes (zero ∷ c) d h k = absurd (omega arith)
strlen-overwrite (suc n) bytes (suc x ∷ c) d h k = ground (arith, strlen-overwrite n bytes c d)

-- With no NUL among them, they extend it.
pub strlen-overwrite_add :
    (n : ℕ) (bytes c d : List ℕ)
    → NoByte 0 bytes
    → n ≤ strlen (c ++ d)
    → n + length bytes ≤ length c
    → n + length bytes ≤ strlen (overwrite n bytes c ++ d)
unfolding strlen
strlen-overwrite_add zero [] c d f h k = omega arith
strlen-overwrite_add zero (zero ∷ bytes) c d f h k = absurd (f.0 refl)
strlen-overwrite_add zero (suc b ∷ bytes) [] d f h k = absurd (omega arith)
strlen-overwrite_add zero (suc b ∷ bytes) (x ∷ c) d f h k =
    ground (arith, strlen-overwrite_add zero bytes c d f.1)
strlen-overwrite_add (suc n) bytes [] d f h k = absurd (omega arith)
strlen-overwrite_add (suc n) bytes (zero ∷ c) d f h k = absurd (omega arith)
strlen-overwrite_add (suc n) bytes (suc x ∷ c) d f h k =
    ground (arith, strlen-overwrite_add n bytes c d f)
