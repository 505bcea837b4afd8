-- ===== src/Proc/Tty/Tests.antt =====
-- A program that turns echo off.
use oxide_os.Prelude.{ℕ, ◌≡◌, refl, true, false, List, [], ◌∷◌, pos, replicate}
use oxide_os.Sys.Guard.{validate_user_range}
use oxide_os.Proc.Tty.{
  Termios, Winsize, Request, tty, ioctl, tcgets, tcsets, tiocgwinsz, termios_at, winsize_at, usable,
  run_calls, last_termios, last_winsize, gets-history, is_canonical, is_echo,
}

abbrev raw : Termios
raw = record {
  c_iflag = 0;
  c_oflag = 0;
  c_cflag = 191;
  c_lflag = 0;
  c_line = 0;
  c_cc = replicate 32 0;
}

abbrev square : Winsize
square = record { ws_row = 40; ws_col = 40; ws_xpixel = 400; ws_ypixel = 400 }

abbrev calls : List (ℕ × Request)
calls =
    (3, record { request = tcsets; arg = 65536; given_termios = raw; given_winsize = square }) ∷ []

starts_cooked :
    (is_echo tty ≡ true) × (is_echo (run_calls tty calls) ≡ false) × (is_canonical tty ≡ true)
unfolding is_echo is_canonical tty run_calls ioctl usable validate_user_range
starts_cooked = (refl, refl, refl)

addresses : (usable 65536 52 ≡ true) × (usable 65536 8 ≡ true)
unfolding usable validate_user_range
addresses = (refl, refl)

gets-history_example :
    (ioctl
        (run_calls tty calls)
        3
        (record { request = tcgets; arg = 65536; given_termios = raw; given_winsize = square })
      ≡ (pos 0, run_calls tty calls, termios_at 65536 (last_termios tty.termios calls)))
    × (ioctl (run_calls tty calls) 3 (record {
      request = tiocgwinsz;
      arg = 65536;
      given_termios = raw;
      given_winsize = square;
    })
        ≡ (pos 0, run_calls tty calls, winsize_at 65536 (last_winsize tty.winsize calls)))
gets-history_example = gets-history tty calls 3 65536 raw square addresses.0 addresses.1
