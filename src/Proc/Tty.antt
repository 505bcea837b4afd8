-- ===== src/Proc/Tty.antt =====
-- kernel/src/kernel/proc/tty.rs: the settings of the one terminal and its ioctl.
mod Tests
use Prim.Native.Nat.{bit_and, bit_or}
use oxide_os.Prelude.{
  ℕ, ◌≡◌, refl, sym, ap, ◌∙◌, ◌%◌, ◌^◌, Bool, true, false, not, ◌||◌, ◌&&◌, ◌==◌, if◌then◌else◌,
  List, [], ◌∷◌, replicate, ℤ, pos, neg, inl, inr, Bool-cases, arith,
}
use oxide_os.Sys.Guard.{Check, ok, err, validate_user_range}

-- The padding is left out: nothing looks at it.
pub record Termios : Type 0 where
  pub c_iflag : ℕ
  pub c_oflag : ℕ
  pub c_cflag : ℕ
  pub c_lflag : ℕ
  pub c_line : ℕ
  pub c_cc : List ℕ

pub record Winsize : Type 0 where
  pub ws_row : ℕ
  pub ws_col : ℕ
  pub ws_xpixel : ℕ
  pub ws_ypixel : ℕ

pub record TtyState : Type 0 where
  pub termios : Termios
  pub winsize : Winsize

abbrev pub icanon : ℕ
icanon = 2

abbrev pub echo : ℕ
echo = 8

-- The static TTY: ICRNL and IXON; OPOST and ONLCR; ISIG, ICANON, ECHO, ECHOE and ECHOK.
unfoldable pub tty : TtyState
tty = record {
  termios = record {
    c_iflag = 1280;
    c_oflag = 5;
    c_cflag = 191;
    c_lflag = 59;
    c_line = 0;
    c_cc = replicate 32 0;
  };
  winsize = record { ws_row = 24; ws_col = 80; ws_xpixel = 720; ws_ypixel = 384 };
}

abbrev pub tcgets : ℕ
tcgets = 0x5401

abbrev pub tcsets : ℕ
tcsets = 0x5402

abbrev pub tcsetsw : ℕ
tcsetsw = 0x5403

abbrev pub tcsetsf : ℕ
tcsetsf = 0x5404

abbrev pub tiocgpgrp : ℕ
tiocgpgrp = 0x540F

abbrev pub tiocspgrp : ℕ
tiocspgrp = 0x5410

abbrev pub tiocgwinsz : ℕ
tiocgwinsz = 0x5413

abbrev pub tiocswinsz : ℕ
tiocswinsz = 0x5414

-- The request, its pointer, and what the pointer holds when it is read as each of the two records.
pub record Request : Type 0 where
  pub request : ℕ
  pub arg : ℕ
  pub given_termios : Termios
  pub given_winsize : Winsize

-- What a call stores through the pointer.
pub data Stored : Type 0 where
  nothing : Stored
  termios_at : ℕ → Termios → Stored
  winsize_at : ℕ → Winsize → Stored
  pid_at : ℕ → ℕ → Stored

-- The address may be used for a record of that many bytes.
unfoldable pub usable : ℕ → ℕ → Bool
usable arg size = elim (validate_user_range arg size) [ ok ↦ true | err _ ↦ false ]

unfoldable pub ioctl : TtyState → ℕ → Request → ℤ × TtyState × Stored
ioctl s pid r =
    if r.request == tcgets
    then if usable r.arg 52 then (pos 0, s, termios_at r.arg s.termios) else (neg 1, s, nothing)
    else if r.request == tcsets || r.request == tcsetsw || r.request == tcsetsf
    then if usable r.arg 52
      then (pos 0, record s { termios = r.given_termios }, nothing)
      else (neg 1, s, nothing)
    else if r.request == tiocgwinsz
    then if usable r.arg 8 then (pos 0, s, winsize_at r.arg s.winsize) else (neg 1, s, nothing)
    else if r.request == tiocswinsz
    then if usable r.arg 8
      then (pos 0, record s { winsize = r.given_winsize }, nothing)
      else (neg 1, s, nothing)
    else if r.request == tiocgpgrp
    then if usable r.arg 4 then (pos 0, s, pid_at r.arg (pid % 2 ^ 32)) else (neg 1, s, nothing)
    else if r.request == tiocspgrp
    then (pos 0, s, nothing)
    else (neg 1, s, nothing)

unfoldable pub is_canonical : TtyState → Bool
is_canonical s = not (bit_and s.termios.c_lflag icanon == 0)

unfoldable pub is_echo : TtyState → Bool
is_echo s = not (bit_and s.termios.c_lflag echo == 0)

-- A sequence of calls, each with the number of its process.
unfoldable pub run_calls : TtyState → List (ℕ × Request) → TtyState
run_calls s [] = s
run_calls s ((pid, r) ∷ calls) = run_calls (ioctl s pid r).1 calls

-- The settings of the last call that sets them from an address that may be used.
unfoldable pub last_termios : Termios → List (ℕ × Request) → Termios
last_termios t [] = t
last_termios t ((_, r) ∷ calls) =
    last_termios
      (if (r.request == tcsets || r.request == tcsetsw || r.request == tcsetsf) && usable r.arg 52
        then r.given_termios
        else t)
      calls

unfoldable pub last_winsize : Winsize → List (ℕ × Request) → Winsize
last_winsize w [] = w
last_winsize w ((_, r) ∷ calls) =
    last_winsize (if r.request == tiocswinsz && usable r.arg 8 then r.given_winsize else w) calls

termios-ioctl :
    (s : TtyState) (pid : ℕ) (r : Request)
    → (ioctl s pid r).1.termios ≡ (
        if (r.request == tcsets || r.request == tcsetsw || r.request == tcsetsf) && usable r.arg 52
        then r.given_termios
        else s.termios)
unfolding ioctl
termios-ioctl s pid r = ground arith

winsize-ioctl :
    (s : TtyState) (pid : ℕ) (r : Request)
    → (ioctl s pid r).1.winsize
      ≡ (if r.request == tiocswinsz && usable r.arg 8 then r.given_winsize else s.winsize)
unfolding ioctl
winsize-ioctl s pid r = ground arith

termios-run_calls :
    (s : TtyState) (calls : List (ℕ × Request))
    → (run_calls s calls).termios ≡ last_termios s.termios calls
unfolding run_calls last_termios
termios-run_calls s [] = refl
termios-run_calls s ((pid, r) ∷ calls) =
    termios-run_calls (ioctl s pid r).1 calls
    ∙ ap (λ t. last_termios t calls) (termios-ioctl s pid r)

winsize-run_calls :
    (s : TtyState) (calls : List (ℕ × Request))
    → (run_calls s calls).winsize ≡ last_winsize s.winsize calls
unfolding run_calls last_winsize
winsize-run_calls s [] = refl
winsize-run_calls s ((pid, r) ∷ calls) =
    winsize-run_calls (ioctl s pid r).1 calls
    ∙ ap (λ t. last_winsize t calls) (winsize-ioctl s pid r)

tcgets-usable :
    (s : TtyState) (pid arg : ℕ) (t : Termios) (w : Winsize)
    → usable arg 52 ≡ true
    → ioctl s pid (record { request = tcgets; arg = arg; given_termios = t; given_winsize = w })
      ≡ (pos 0, s, termios_at arg s.termios)
unfolding ioctl
tcgets-usable s pid arg t w u = simp (ioctl, u) refl

tiocgwinsz-usable :
    (s : TtyState) (pid arg : ℕ) (t : Termios) (w : Winsize)
    → usable arg 8 ≡ true
    → ioctl s pid (record { request = tiocgwinsz; arg = arg; given_termios = t; given_winsize = w })
      ≡ (pos 0, s, winsize_at arg s.winsize)
unfolding ioctl
tiocgwinsz-usable s pid arg t w u = simp (ioctl, u) refl

-- After any sequence of calls of ioctl, with any requests and addresses, TCGETS and TIOCGWINSZ to
-- an address that may be used succeed, change nothing and store what the last successful call
-- that sets the terminal's modes, or its size, was given, or the first value if there was none.
pub gets-history :
    (s : TtyState) (calls : List (ℕ × Request)) (pid arg : ℕ) (t : Termios) (w : Winsize)
    → usable arg 52 ≡ true
    → usable arg 8 ≡ true
    → (ioctl
          (run_calls s calls)
          pid
          (record { request = tcgets; arg = arg; given_termios = t; given_winsize = w })
        ≡ (pos 0, run_calls s calls, termios_at arg (last_termios s.termios calls)))
      × (ioctl
            (run_calls s calls)
            pid
            (record { request = tiocgwinsz; arg = arg; given_termios = t; given_winsize = w })
          ≡ (pos 0, run_calls s calls, winsize_at arg (last_winsize s.winsize calls)))
gets-history s calls pid arg t w u v =
    let after = run_calls s calls in
    (
      tcgets-usable after pid arg t w u
          ∙ ap (λ x. (pos 0, after, termios_at arg x)) (termios-run_calls s calls),
      tiocgwinsz-usable after pid arg t w v
          ∙ ap (λ x. (pos 0, after, winsize_at arg x)) (winsize-run_calls s calls),
    )
