-- ===== src/Sys/Call/Checked.antt =====
-- kernel/src/kernel/sys/syscall_core.rs: calls whose slices lie in user memory, and handlers that
-- make only such calls.
use oxide_os.Prelude.{ℕ, Bool, true, false, ◌≡◌, refl, ℤ, pos, ltb_ℤ, if◌then◌else◌}
use oxide_os.Sys.Guard.{Check, ok, err, validate_user_range, InUser}
use oxide_os.Sys.Guard.Range.{validate_user_range_lem}
use oxide_os.Sys.Call.{
  Call, Reply, Action, Prog, Slice, done, halt, call, ask, act, ok_result, err_result, finish,
  forward, forward_ok, checked,
}

-- A slice is empty or lies in user memory.
abbrev pub Inside : Slice → Type 0
Inside s = InUser s.ptr s.len

-- The slices that a call passes, and the addresses that the kernel writes a pipe's descriptors, the
-- status of a file by its path or a message to. A plain call passes numbers only: where one of them
-- is an address (fstat, uname, clock_gettime, sigprocmask), the dispatcher leaves its check to the
-- runtime, so nothing is required of it here.
unfoldable pub CheckedCall : Call → Type 0
CheckedCall (Call.plain _) = Unit
CheckedCall (Call.exec_program s0) = Inside s0
CheckedCall (Call.exec_program_args s0 s1) = Inside s0 × Inside s1
CheckedCall (Call.getdents64_impl _ s1) = Inside s1
CheckedCall (Call.readdir_impl s0 s1) = Inside s0 × Inside s1
CheckedCall (Call.mkdir_impl s0) = Inside s0
CheckedCall (Call.chdir_impl s0) = Inside s0
CheckedCall (Call.getcwd_impl s0) = Inside s0
CheckedCall (Call.stat_impl s0 a1) = Inside s0 × InUser a1 144
CheckedCall (Call.lstat_impl s0 a1) = Inside s0 × InUser a1 144
CheckedCall (Call.unlink_impl s0) = Inside s0
CheckedCall (Call.rename_impl s0 s1) = Inside s0 × Inside s1
CheckedCall (Call.getenv_impl s0 s1) = Inside s0 × Inside s1
CheckedCall (Call.setenv_impl s0 s1) = Inside s0 × Inside s1
CheckedCall (Call.chmod_impl s0 _) = Inside s0
CheckedCall (Call.chown_impl s0 _ _) = Inside s0
CheckedCall (Call.fs_open s0 _) = Inside s0
CheckedCall (Call.fs_read _ s1) = Inside s1
CheckedCall (Call.fs_write_file _ s1) = Inside s1
CheckedCall (Call.pipe_alloc a0 a1) = InUser a0 4 × InUser a1 4
CheckedCall (Call.pipe2_impl a0 a1 _) = InUser a0 4 × InUser a1 4
CheckedCall (Call.msgsnd _ _ s2) = Inside s2
CheckedCall (Call.msgrcv _ a1) = InUser a1 264
CheckedCall (Call.msgrcv_wait _ a1) = InUser a1 264
CheckedCall (Call.gui_create_impl _ s1 _ _) = Inside s1
CheckedCall (Call.gui_draw_text_impl _ _ _ _ _ s5) = Inside s5
CheckedCall (Call.access_impl s0 _) = Inside s0
CheckedCall (Call.rmdir_impl s0) = Inside s0
CheckedCall (Call.creat_impl s0 _) = Inside s0
CheckedCall (Call.readlink_impl s0 _ _) = Inside s0
CheckedCall (Call.lchown_impl s0 _ _) = Inside s0
CheckedCall (Call.dns_resolve_impl s0) = Inside s0

unfoldable pub CheckedAction : Action → Type 0
CheckedAction (Action.write_console s) = Inside s
CheckedAction (Action.write_system_info s _) = Inside s
CheckedAction (Action.write_byte s _) = Inside s
CheckedAction _ = Unit

-- Whatever the kernel answers, every call of the handler passes checked slices and places.
unfoldable pub Checked : Prog → Type 0
unfolding CheckedCall CheckedAction
Checked (done _) = Unit
Checked (halt _) = Unit
Checked (call c k) = CheckedCall c × ((r : ℤ) → Checked (k r))
Checked (ask q k) = (a : Reply q) → Checked (k a)
Checked (act a k) = CheckedAction a × Checked k

pub if-Checked :
    (b : Bool) (p q : Prog)
    → (b ≡ true → Checked p)
    → (b ≡ false → Checked q)
    → Checked (if b then p else q)
if-Checked true p q f g = f refl
if-Checked false p q f g = g refl

pub finish-Checked : (r : ℤ) → Checked (finish r)
unfolding Checked
finish-Checked r =
    if-Checked (ltb_ℤ r (pos 0)) (done (err_result r)) (done (ok_result r)) (λ _. tt) (λ _. tt)

pub forward-Checked : (c : Call) → CheckedCall c → Checked (forward c)
unfolding Checked
forward-Checked c h = (h, finish-Checked)

pub forward_ok-Checked : (c : Call) → CheckedCall c → Checked (forward_ok c)
unfolding Checked
forward_ok-Checked c h = (h, λ r. tt)

-- What follows the check of a range may rely on the range lying in user memory.
pub checked-Checked :
    (ptr len : ℕ) (rest : Prog) → (InUser ptr len → Checked rest) → Checked (checked ptr len rest)
unfolding checked Checked
checked-Checked ptr len rest h =
    by_result (validate_user_range ptr len) (validate_user_range_lem ptr len).0
  where
    by_result :
        (c : Check)
        → (c ≡ ok → InUser ptr len)
        → Checked (elim c as (λ _. Prog) [ ok ↦ rest | err e ↦ done (err_result e) ])
    by_result ok f = h (f refl)
    by_result (err e) f = tt

-- A check that passes leaves the rest.
pub checked_inside : (ptr len : ℕ) (rest : Prog) → InUser ptr len → checked ptr len rest ≡ rest
unfolding checked
checked_inside ptr len rest h =
    by_result (validate_user_range ptr len) ((validate_user_range_lem ptr len).1 h)
  where
    by_result :
        (c : Check)
        → c ≡ ok
        → (elim c as (λ _. Prog) [ ok ↦ rest | err e ↦ done (err_result e) ]) ≡ rest
    by_result ok e = refl
    by_result (err e) f = cc
