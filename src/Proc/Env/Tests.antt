-- ===== src/Proc/Env/Tests.antt =====
-- The theorems on the environment at the boot environment.
use oxide_os.Prelude.{ℕ, List, ◌≡◌, some, refl, codes, arith}
use oxide_os.Proc.Env.{EnvTable, env_init, getenv, setenv}
use oxide_os.Proc.Env.Lookup.{getenv-setenv}

abbrev home : List ℕ
home = codes "HOME"

abbrev shell : List ℕ
shell = codes "SHELL"

abbrev with_home : EnvTable
with_home = (setenv env_init home (codes "/")).1

getenv-setenv_example : getenv (setenv with_home home (codes "/tmp")).1 home ≡ some (codes "/tmp")
unfolding setenv env_init
getenv-setenv_example =
    getenv-setenv with_home home (codes "/tmp") (omega arith, omega arith, omega arith)
      (omega arith) refl
