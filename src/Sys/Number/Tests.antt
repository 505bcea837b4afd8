-- ===== src/Sys/Number/Tests.antt =====
-- Numbers of system calls at concrete inputs.
use oxide_os.Prelude.{◌≡◌, ◌↔◌, refl}
use oxide_os.Sys.Number.{Syscall, number}
use oxide_os.Sys.Number.Table.{from, lookup, from_iff}

decodes : from 39 ≡ Syscall.get_pid
unfolding from lookup
decodes = refl

from_iff_example : (from 120 ≡ Syscall.gui_create) ↔ (120 ≡ number Syscall.gui_create)
from_iff_example = from_iff 120 Syscall.gui_create (λ e. cc e)
