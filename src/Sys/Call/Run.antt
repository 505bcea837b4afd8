-- ===== src/Sys/Call/Run.antt =====
-- A runtime answers the calls of a handler from its own state.
use oxide_os.Prelude.{Option, none, some, ℤ, ◌≡◌, ap}
use oxide_os.Sys.Call.{SyscallResult, Call, Query, Reply, Action, Prog, done, halt, call, ask, act}

-- The implementation of the trait.
pub record Runtime (S : Type 0) : Type 0 where
  pub on_call : Call → S → ℤ × S
  pub on_query : (q : Query) → S → Reply q
  pub on_action : Action → S → S

-- The result, or none if the call does not return, and the state after it.
unfoldable pub run : {S : Type 0} → Runtime S → Prog → S → Option SyscallResult × S
run rt (done r) s = (some r, s)
run rt (halt h) s = (none, s)
run rt (call c k) s = run rt (k (rt.on_call c s).0) (rt.on_call c s).1
run rt (ask q k) s = run rt (k (rt.on_query q s)) s
run rt (act a k) s = run rt k (rt.on_action a s)

module _ {S : Type 0} (rt : Runtime S) where
  -- A call goes on with what the kernel answers.
  pub run-call :
      (c : Call) (k : ℤ → Prog) (s : S) (a : ℤ × S)
      → rt.on_call c s ≡ a
      → run rt (call c k) s ≡ run rt (k a.0) a.1
  unfolding run
  run-call c k s a e = ap (λ p. run rt (k p.0) p.1) e
