-- ===== src/Proc/Argv.antt =====
-- kernel/src/kernel/proc/scheduler.rs, write_argv_to_stack: the block of arguments and environment
-- at the top of a new program's stack.
use oxide_os.Prelude.{
  ℕ, zero, suc, ◌+◌, ◌-◌, ◌*◌, ◌/◌, ◌&&◌, List, [], ◌∷◌, ◌++◌, ltb, if◌then◌else◌, length, get_or,
  take, drop, replicate, min,
}
use oxide_os.Proc.Task.{le_bytes}
use oxide_os.Proc.Env.{EnvTable, write_env_strings}

-- `buf[off..off + bytes.len()].copy_from_slice(bytes)`
abbrev pub copied : List ℕ → ℕ → List ℕ → List ℕ
copied buf off bytes = take off buf ++ (bytes ++ drop (off + length bytes) buf)

-- The bytes that the argument strings take, a zero behind each.
pub argv_str_bytes : List (List ℕ) → ℕ
argv_str_bytes [] = 0
argv_str_bytes (a ∷ args) = length a + 1 + argv_str_bytes args

-- The loop over the arguments: each one's address into its slot and its text at `str_off`.
pub place_args : ℕ → ℕ → ℕ → List (List ℕ) → List ℕ → List ℕ
unfolding le_bytes
place_args rsp i str_off [] buf = buf
place_args rsp i str_off (a ∷ args) buf =
    let buf' = copied buf (8 + i * 8) (le_bytes (rsp + str_off)) in
    place_args rsp (suc i) (str_off + length a + 1) args (copied buf' str_off (a ++ (0 ∷ [])))

-- The index behind the text that begins at `scan`, at most `fuel` bytes on.
pub skip_text : ℕ → List ℕ → ℕ → ℕ → ℕ
skip_text zero raw len scan = scan
skip_text (suc fuel) raw len scan =
    let rest = skip_text fuel raw len (suc scan) in
    if ltb scan len && ltb 0 (get_or raw scan 0) then rest else scan

-- The loop over the environment, at most once for each of the `left` variables.
pub place_env : ℕ → ℕ → ℕ → ℕ → List ℕ → ℕ → ℕ → List ℕ → List ℕ
unfolding le_bytes skip_text
place_env zero rsp base argc raw ei scan buf = buf
place_env (suc left) rsp base argc raw ei scan buf =
    let len = length raw in
    let va = rsp + (base + scan) in
    let buf' = copied buf (8 + (argc + 1 + ei) * 8) (le_bytes va) in
    let rest = place_env left rsp base argc raw (suc ei) (skip_text len raw len scan + 1) buf' in
    if ltb scan len then rest else buf

-- The initial stack pointer, and the block unless it is larger than the buffer of 2048 bytes.
unfoldable pub write_argv_to_stack : EnvTable → ℕ → List (List ℕ) → ℕ × List ℕ
unfolding argv_str_bytes place_args place_env write_env_strings
write_argv_to_stack env stack_top args =
    let argc = min (length args) 31 in
    let (envc, env_raw) = write_env_strings env 1024 in
    let ptr_table_bytes = 8 * (1 + argc + 1 + envc + 1) in
    let argv = take argc args in
    let str_end = ptr_table_bytes + argv_str_bytes argv in
    let total = (str_end + length env_raw + 15) / 16 * 16 + 8 in
    let rsp = stack_top - total in
    let buf = copied (replicate 2048 0) 0 (le_bytes argc) in
    let buf' = place_args rsp 0 ptr_table_bytes argv buf in
    let block = place_env envc rsp str_end argc env_raw 0 0 (copied buf' str_end env_raw) in
    if ltb 2048 total then (stack_top - 8, []) else (rsp, take total block)
