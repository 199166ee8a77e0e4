-- ===== src/Kern/Faults.antt =====
-- `page_fault_handler` of sched/kern/trap.c: where the frame of a fault goes.
use sis_ops.Common.{
  ℕ, ◌+◌, ◌-◌, ◌%◌, ◌<◌, ◌≤◌, ◌≡◌, ◌≢◌, refl, ap, ◌∙◌, List, ◌∷◌, some, none, true, false, ◌||◌,
  ltb, arith,
}
use sis_ops.Kern.{Trapframe, Env}
use sis_ops.Kern.Pages.{done}
use sis_ops.Kern.AddressMap.{utop}
use sis_ops.Kern.UserMem.{user_mem_check}
use sis_ops.Kern.Kernel.{
  Stored, word, frame, Kernel, Result, dies, env_at, set_env, memory, user_mem_assert,
}
use sis_ops.Kern.Trap.{
  runs_env, push_frame, recursive, set_tf, exstk, exstk_top, utf_of, page_fault_handler,
}

user_mem_assert-none :
    (k : Kernel) (i va len d : ℕ) (e : Env) (next : Kernel → Result)
    → env_at k i ≡ some e
    → e.env_pgdir ≡ some d
    → user_mem_check (memory k) d va len 6 ≡ done none
    → user_mem_assert k i va len 6 next ≡ next k
unfolding user_mem_assert
user_mem_assert-none k i va len d e next a b c = ground arith

-- The state as the environment is entered.
abbrev entered : Kernel → ℕ → Env → ℕ → List Stored → Kernel
entered k c e a stored =
    record (set_env k c
      (record e { env_tf = record e.env_tf { tf_esp = a; tf_eip = e.env_pgfault_upcall } })) {
        stored = stored;
      }

-- The handler has stored this and enters the environment at its upcall, on its exception stack.
pub record Pushed (k : Kernel) (c : ℕ) (e : Env) (a : ℕ) (more : List Stored) (fault_va : ℕ)
    (r : Result) : Type 0 where
  pub low : exstk ≤ a
  pub high : a + 52 ≤ utop
  pub enters : r ≡ runs_env (entered k c e a (frame a (utf_of fault_va e.env_tf) ∷ more)) c

set_tf-some :
    (k : Kernel) (c : ℕ) (e : Env) (f : Trapframe → Trapframe)
    → env_at k c ≡ some e
    → set_tf k (some c) f ≡ set_env k c (record e { env_tf = f e.env_tf })
set_tf-some k c e f here = ground arith

abbrev to_upcall : Env → ℕ → Trapframe → Trapframe
to_upcall e a f = record f { tf_esp = a; tf_eip = e.env_pgfault_upcall }

push_frame-outside :
    (k : Kernel) (fault_va c : ℕ) (e : Env)
    → env_at k c ≡ some e
    → recursive e.env_tf.tf_esp ≡ false
    → push_frame fault_va k c (some c) e.env_tf e.env_pgfault_upcall
      ≡ runs_env
          (entered k c e (utop - 53) (frame (utop - 53) (utf_of fault_va e.env_tf) ∷ k.stored))
          c
unfolding push_frame
push_frame-outside k fault_va c e here out =
    let l = frame (utop - 53) (utf_of fault_va e.env_tf) ∷ k.stored in
    rw out (
      ap (λ (x : Kernel). runs_env x c)
        (set_tf-some (record k { stored = l }) c e (to_upcall e (utop - 53)) here))

push_frame-inside :
    (k : Kernel) (fault_va c a : ℕ) (e : Env)
    → env_at k c ≡ some e
    → recursive e.env_tf.tf_esp ≡ true
    → e.env_tf.tf_esp - 56 ≡ a
    → exstk ≤ a
    → a < utop
    → push_frame fault_va k c (some c) e.env_tf e.env_pgfault_upcall
      ≡ runs_env
          (entered k c e a
            (frame a (utf_of fault_va e.env_tf) ∷ word (e.env_tf.tf_esp - 4) 0 ∷ k.stored))
          c
unfolding push_frame
push_frame-inside k fault_va c a e here in_ at low high =
    let room : (ltb a exstk || ltb exstk_top a) ≡ false = ground arith in
    let l = frame a (utf_of fault_va e.env_tf) ∷ word (e.env_tf.tf_esp - 4) 0 ∷ k.stored in
    rw (in_, at)
      (rw room (
        ap (λ (x : Kernel). runs_env x c)
          (set_tf-some (record k { stored = l }) c e (to_upcall e a) here)))

push_frame-overflow :
    (k : Kernel) (fault_va c : ℕ) (e : Env)
    → recursive e.env_tf.tf_esp ≡ true
    → e.env_tf.tf_esp < exstk + 56
    → push_frame fault_va k c (some c) e.env_tf e.env_pgfault_upcall ≡ dies
unfolding push_frame
push_frame-overflow k fault_va c e in_ low =
    let no_room : (ltb (e.env_tf.tf_esp - 56) exstk || ltb exstk_top (e.env_tf.tf_esp - 56))
        ≡ true =
      ground arith in
    rw in_ (rw no_room refl)

module _ (k : Kernel) (fault_va c d : ℕ) (e : Env) (next : Kernel → Result)
    (cur : k.cpu.curenv ≡ some c) (here : env_at k c ≡ some e) (dir : e.env_pgdir ≡ some d)
    (user : e.env_tf.tf_cs % 4 ≡ 3) (upcall : e.env_pgfault_upcall ≢ 0)
    (stack : user_mem_check (memory k) d exstk 4096 6 ≡ done none) where
  to_frame :
      page_fault_handler fault_va k (some c) e.env_tf next
      ≡ push_frame fault_va k c (some c) e.env_tf e.env_pgfault_upcall
  unfolding page_fault_handler
  to_frame =
      let ok =
        user_mem_assert-none k c exstk 4096 d e
          (λ k'. push_frame fault_va k' c (some c) e.env_tf e.env_pgfault_upcall) here dir stack in
      ground (arith, ok)

  -- When the environment that runs has an upcall and may write to its exception stack: a fault on
  -- another stack enters the upcall with the frame of the fault at 53 below UXSTACKTOP; one on the
  -- exception stack, with the frame and a zero word below the place of the fault; if there is no room
  -- for these the kernel panics. The frame lies on the exception stack.
  pub page_fault_handler-Pushed :
      (e.env_tf.tf_esp < exstk
        → Pushed k c e
            (utop - 53)
            k.stored
            fault_va
            (page_fault_handler fault_va k (some c) e.env_tf next))
      × (utop ≤ e.env_tf.tf_esp
          → Pushed k c e
              (utop - 53)
              k.stored
              fault_va
              (page_fault_handler fault_va k (some c) e.env_tf next))
      × (exstk + 56 ≤ e.env_tf.tf_esp
          → e.env_tf.tf_esp < utop
          → Pushed k c e
              (e.env_tf.tf_esp - 56)
              (word (e.env_tf.tf_esp - 4) 0 ∷ k.stored)
              fault_va
              (page_fault_handler fault_va k (some c) e.env_tf next))
      × (exstk ≤ e.env_tf.tf_esp
          → e.env_tf.tf_esp < exstk + 56
          → page_fault_handler fault_va k (some c) e.env_tf next ≡ dies)
  page_fault_handler-Pushed = (
    λ h. outside (ground arith),
    λ h. outside (ground arith),
    inside,
    λ l h. to_frame ∙ push_frame-overflow k fault_va c e (ground arith) h,
  )
    where
      outside :
          recursive e.env_tf.tf_esp ≡ false
          → Pushed k c e
              (utop - 53)
              k.stored
              fault_va
              (page_fault_handler fault_va k (some c) e.env_tf next)
      outside out = record {
        low = omega arith;
        high = omega arith;
        enters = to_frame ∙ push_frame-outside k fault_va c e here out;
      }

      inside :
          exstk + 56 ≤ e.env_tf.tf_esp
          → e.env_tf.tf_esp < utop
          → Pushed k c e
              (e.env_tf.tf_esp - 56)
              (word (e.env_tf.tf_esp - 4) 0 ∷ k.stored)
              fault_va
              (page_fault_handler fault_va k (some c) e.env_tf next)
      inside l h = record {
        low = omega arith;
        high = omega arith;
        enters =
            to_frame
            ∙ push_frame-inside k fault_va c (e.env_tf.tf_esp - 56) e here (ground arith) refl
                (omega arith) (omega arith);
      }
