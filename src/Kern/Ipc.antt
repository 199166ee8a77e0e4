-- ===== src/Kern/Ipc.antt =====
-- Sending and receiving: `sys_ipc_try_send` and `sys_ipc_recv` of sched/kern/syscall.c.
use sis_ops.Common.{
  Bool-cases, Option-cases, inl, inr, ℕ, ◌≤◌, ◌≡◌, refl, ap, ◌∙◌, List, Option, some, Bool, true,
  false, ◌==◌, arith, get_elem?, set, get_elem?-set_self,
}
use sis_ops.Kern.{envx, e_inval, e_ipc_not_recv, Env}
use sis_ops.Kern.FreePages.{get_elem?-lt}
use sis_ops.Kern.AddressMap.{utop}
use sis_ops.Kern.Envs.{found, is_free, envid2env}
use sis_ops.Kern.Sched.{Cpu}
use sis_ops.Kern.Kernel.{Kernel, Result, env_at, set_env}
use sis_ops.Kern.Syscall.{fails, ok, with_env, bad_va}
use sis_ops.Kern.IpcCalls.{received, send_done, sys_ipc_try_send, sys_ipc_recv}

-- The id leads to this environment, and there is a current one.
pub record Addressed (k : Kernel) (envid i c : ℕ) (dst cur : Env) : Type 0 where
  pub leads : envid2env k.cpu.envs k.cpu.curenv envid false ≡ found (some i)
  pub target : env_at k i ≡ some dst
  pub current : k.cpu.curenv ≡ some c
  pub sender : env_at k c ≡ some cur

with_env-found :
    (k : Kernel) (envid i : ℕ) (checkperm : Bool) (next : ℕ → Result)
    → envid2env k.cpu.envs k.cpu.curenv envid checkperm ≡ found (some i)
    → with_env k envid checkperm next ≡ next i
unfolding with_env
with_env-found k envid i checkperm next e = ground arith

send_done_lem :
    (k : Kernel) (i c val perm : ℕ) (dst cur : Env)
    → k.cpu.curenv ≡ some c
    → env_at k c ≡ some cur
    → env_at k i ≡ some dst
    → send_done k i val (some perm)
      ≡ ok (set_env k i (received cur.env_id val (record dst { env_ipc_perm = perm })))
unfolding send_done
send_done_lem k i c val perm dst cur a b e = ground arith

abbrev no_page : Kernel → ℕ → ℕ → Env → Env → Kernel
no_page k i val dst cur = set_env k i (received cur.env_id val (record dst { env_ipc_perm = 0 }))

try_send-waiting :
    (k : Kernel) (envid i c val srcva perm : ℕ) (dst cur : Env)
    → Addressed k envid i c dst cur
    → utop ≤ srcva
    → dst.env_ipc_recving ≡ true
    → sys_ipc_try_send k envid val srcva perm ≡ ok (no_page k i val dst cur)
unfolding sys_ipc_try_send
try_send-waiting k envid i c val srcva perm dst cur a far waits =
    let sent = send_done_lem k i c val 0 dst cur a.current a.sender a.target in
    ground (arith, a.leads, a.target)

try_send_again :
    (k : Kernel) (envid i val srcva perm : ℕ) (dst : Env)
    → envid2env k.cpu.envs k.cpu.curenv envid false ≡ found (some i)
    → env_at k i ≡ some dst
    → dst.env_ipc_recving ≡ false
    → sys_ipc_try_send k envid val srcva perm ≡ fails e_ipc_not_recv k
unfolding sys_ipc_try_send
try_send_again k envid i val srcva perm dst leads target busy = ground (arith, leads, target)

-- An id leads to its entry still when the entry is changed and stays in use under the id.
envid2env-set :
    (envs : List Env) (cur : Option ℕ) (envid i : ℕ) (e e' : Env)
    → envid2env envs cur envid false ≡ found (some i)
    → get_elem? envs i ≡ some e
    → e'.env_id ≡ e.env_id
    → is_free e'.env_status ≡ false
    → envid2env (set envs i e') cur envid false ≡ found (some i)
unfolding envid2env
envid2env-set envs cur envid i e e' f g same busy = elim (Bool-cases (envid == 0)) [
  | inl zero_id ↦ ground arith
  | inr id ↦ elim (Option-cases (get_elem? envs (envx envid))) [
    | inl out ↦ ground arith
    | inr hit ↦
        let at : envx envid ≡ i = ground (arith, hit.1) in
        let there = get_elem?-set_self envs i e' (get_elem?-lt envs i e g) in
        let word = ap (get_elem? (set envs i e')) at ∙ there in
        let old = ap (get_elem? envs) at ∙ g in ground (arith, hit.1)
  ]
]

-- A send without a page to an environment that waits in a receive, given by an id that leads to it,
-- returns 0: the receiver gets the value and the sender's id, has left the receive with the result 0
-- and may run, and nothing else has changed. Any further send to it fails with E_IPC_NOT_RECV and
-- changes nothing, as does the first if the environment does not wait.
pub sys_ipc_try_send_once :
    (k : Kernel) (envid i c val srcva perm : ℕ) (dst cur : Env)
    → Addressed k envid i c dst cur
    → utop ≤ srcva
    → (dst.env_ipc_recving ≡ true
        → (k' : Kernel) × (sys_ipc_try_send k envid val srcva perm ≡ ok k')
          × (env_at k' i ≡ some (received cur.env_id val (record dst { env_ipc_perm = 0 })))
          × (k' ≡ set_env k i (received cur.env_id val (record dst { env_ipc_perm = 0 })))
          × ((val' srcva' perm' : ℕ)
              → sys_ipc_try_send k' envid val' srcva' perm' ≡ fails e_ipc_not_recv k'))
      × (dst.env_ipc_recving ≡ false
          → sys_ipc_try_send k envid val srcva perm ≡ fails e_ipc_not_recv k)
sys_ipc_try_send_once k envid i c val srcva perm dst cur a far = (
  (λ waits. (
    no_page k i val dst cur,
    try_send-waiting k envid i c val srcva perm dst cur a far waits,
    now,
    refl,
    λ val' srcva' perm'.
        try_send_again (no_page k i val dst cur) envid i val' srcva' perm' dst'
          (envid2env-set k.cpu.envs k.cpu.curenv envid i dst dst' a.leads a.target refl refl) now
          refl,
  )),
  λ busy. try_send_again k envid i val srcva perm dst a.leads a.target busy,
)
  where
    dst' : Env
    dst' = received cur.env_id val (record dst { env_ipc_perm = 0 })

    now : get_elem? (set k.cpu.envs i dst') i ≡ some dst'
    now = get_elem?-set_self k.cpu.envs i dst' (get_elem?-lt k.cpu.envs i dst a.target)

recv-bad :
    (k : Kernel) (c dstva : ℕ) (cur : Env)
    → k.cpu.curenv ≡ some c
    → env_at k c ≡ some cur
    → bad_va dstva ≡ true
    → sys_ipc_recv k dstva ≡ fails e_inval (set_env k c (record cur { env_ipc_recving = true }))
unfolding sys_ipc_recv
recv-bad k c dstva cur a b bad = ground arith

-- A receive at an address that is not below UTOP, or not page-aligned, fails with E_INVAL and all the
-- same leaves the caller as one that waits: the next send without a page to it, by whichever
-- environment is then current, returns 0 and makes it runnable.
pub sys_ipc_recv-sys_ipc_try_send :
    (k k' : Kernel) (c s dstva envid val srcva perm : ℕ) (cur snd : Env)
    → k.cpu.curenv ≡ some c
    → env_at k c ≡ some cur
    → bad_va dstva ≡ true
    → (k'.cpu
        ≡ record (set_env k c (record cur { env_ipc_recving = true })).cpu { curenv = some s })
    → env_at k' s ≡ some snd
    → envid2env k'.cpu.envs (some s) envid false ≡ found (some c)
    → utop ≤ srcva
    → (sys_ipc_recv k dstva ≡ fails e_inval (set_env k c (record cur { env_ipc_recving = true })))
      × (sys_ipc_try_send k' envid val srcva perm
          ≡ ok (
              set_env k' c (
                received snd.env_id val (record cur { env_ipc_recving = true; env_ipc_perm = 0 }))))
sys_ipc_recv-sys_ipc_try_send k k' c s dstva envid val srcva perm cur snd a b bad next sender leads
      far =
    (
      recv-bad k c dstva cur a b bad,
      try_send-waiting k' envid c s val srcva perm (record cur { env_ipc_recving = true }) snd
          (record {
            leads =
                ap (λ (x : Option ℕ). envid2env k'.cpu.envs x envid false)
                  (ap (λ (x : Cpu). x.curenv) next)
                ∙ leads;
            target =
                ap (λ (x : Cpu). get_elem? x.envs c) next
                ∙ get_elem?-set_self k.cpu.envs c (record cur { env_ipc_recving = true })
                    (get_elem?-lt k.cpu.envs c cur b);
            current = ap (λ (x : Cpu). x.curenv) next;
            sender = sender;
          })
          far refl,
    )
