-- ===== src/Keyboard/Leds.antt =====
-- The lights of the keyboard and the ring behind it, whatever the keyboard sends.
use oxide_os.Prelude.{
  ℕ, ◌≡◌, refl, sym, Bool, true, false, ◌==◌, Option, none, some, List, [], ◌∷◌, get_or, inl, inr,
  Bool-cases, Option-cases, arith, ==_iff,
}
use oxide_os.Ipc.Stdin.{Ring, ring_init, IsValid, push, push-IsValid}
use oxide_os.Keyboard.{
  KeyCode, l_shift, r_shift, l_control, r_control, l_alt, r_alt_gr, caps_lock, numpad_lock,
  scroll_lock, backspace, tab, enter, escape, arrow_up, arrow_down, arrow_right, arrow_left,
  page_up, page_down, home, to_end, delete, other, Added, key_event, incomplete, bad, DecodedKey,
  unicode, raw_key, Driver, init, led_byte, update_leds, update_modifiers, byte_of,
  dispatch_unicode, ascii_of, push_all, dispatch_raw_key, dispatch_decoded, Decoder, on_added,
  process_scancode, process_all,
}

-- The last byte that was sent to the keyboard shows the lock keys, and the ring is well formed.
pub record Shown (d : Driver) : Type 0 where
  pub led : d.last_led ≡ led_byte d.mods
  pub sent : get_or d.sent 0 0 ≡ d.last_led
  pub ring : IsValid d.stdin

update_leds-Shown :
    (d : Driver) → get_or d.sent 0 0 ≡ d.last_led → IsValid d.stdin → Shown (update_leds d)
unfolding update_leds
update_leds-Shown d sent ring = elim (Bool-cases (led_byte d.mods == d.last_led)) [
  | inl e ↦
      simp (update_leds, e) (record { led = sym ((==_iff _ _).0 e); sent = sent; ring = ring })
  | inr e ↦ simp (update_leds, e) (record { led = refl; sent = refl; ring = ring })
]

update_modifiers-Shown :
    (d : Driver) (code : KeyCode) (press : Bool) → Shown d → Shown (update_modifiers d code press)
unfolding update_modifiers led_byte
update_modifiers-Shown d caps_lock true v = update_leds-Shown _ v.sent v.ring
update_modifiers-Shown d numpad_lock true v = update_leds-Shown _ v.sent v.ring
update_modifiers-Shown d scroll_lock true v = update_leds-Shown _ v.sent v.ring
update_modifiers-Shown d caps_lock false v = v
update_modifiers-Shown d numpad_lock false v = v
update_modifiers-Shown d scroll_lock false v = v
update_modifiers-Shown d l_shift press v = record { led = v.led; sent = v.sent; ring = v.ring }
update_modifiers-Shown d r_shift press v = record { led = v.led; sent = v.sent; ring = v.ring }
update_modifiers-Shown d l_control press v = record { led = v.led; sent = v.sent; ring = v.ring }
update_modifiers-Shown d r_control press v = record { led = v.led; sent = v.sent; ring = v.ring }
update_modifiers-Shown d l_alt press v = record { led = v.led; sent = v.sent; ring = v.ring }
update_modifiers-Shown d r_alt_gr press v = record { led = v.led; sent = v.sent; ring = v.ring }
update_modifiers-Shown d backspace press v = v
update_modifiers-Shown d tab press v = v
update_modifiers-Shown d enter press v = v
update_modifiers-Shown d escape press v = v
update_modifiers-Shown d arrow_up press v = v
update_modifiers-Shown d arrow_down press v = v
update_modifiers-Shown d arrow_right press v = v
update_modifiers-Shown d arrow_left press v = v
update_modifiers-Shown d page_up press v = v
update_modifiers-Shown d page_down press v = v
update_modifiers-Shown d home press v = v
update_modifiers-Shown d to_end press v = v
update_modifiers-Shown d delete press v = v
update_modifiers-Shown d (other n) press v = v

push_all-IsValid : (r : Ring) (bytes : List ℕ) → IsValid r → IsValid (push_all r bytes)
unfolding push_all
push_all-IsValid r [] v = v
push_all-IsValid r (b ∷ bytes) v = push_all-IsValid (push r b) bytes (push-IsValid b v)

dispatch_decoded-Shown :
    (d : Driver) (o : Option DecodedKey) → Shown d → Shown (dispatch_decoded d o)
unfolding dispatch_decoded dispatch_unicode dispatch_raw_key
dispatch_decoded-Shown d none v = v
dispatch_decoded-Shown d (some (unicode c)) v = elim (Option-cases (byte_of c)) [
  | inl e ↦ simp (dispatch_unicode, e) v
  | inr (byte, e) ↦
      simp (dispatch_unicode, e)
        (record { led = v.led; sent = v.sent; ring = push-IsValid byte v.ring })
]
dispatch_decoded-Shown d (some (raw_key code)) v = elim (Option-cases (ascii_of code)) [
  | inl e ↦
      simp (dispatch_raw_key, e)
        (record { led = v.led; sent = v.sent; ring = push_all-IsValid d.stdin _ v.ring })
  | inr (byte, e) ↦
      simp (dispatch_raw_key, e)
        (record { led = v.led; sent = v.sent; ring = push-IsValid byte v.ring })
]

module _ (decoder : Decoder) where
  on_added-Shown :
      (kb : decoder.State) (d : Driver) (a : Added) → Shown d → Shown (on_added decoder kb d a).1
  unfolding on_added
  on_added-Shown kb d (key_event code press) v =
      dispatch_decoded-Shown (update_modifiers d code press) _
        (update_modifiers-Shown d code press v)
  on_added-Shown kb d incomplete v = v
  on_added-Shown kb d bad v = v

  process_scancode-Shown :
      (s : Option decoder.State × Driver) (byte : ℕ)
      → Shown s.1
      → Shown (process_scancode decoder s byte).1
  unfolding process_scancode
  process_scancode-Shown (none, d) byte v = v
  process_scancode-Shown (some kb, d) byte v = on_added-Shown _ d _ v

  process_all-Shown :
      (s : Option decoder.State × Driver) (bytes : List ℕ)
      → Shown s.1
      → Shown (process_all decoder s bytes).1
  unfolding process_all
  process_all-Shown s [] v = v
  process_all-Shown s (byte ∷ bytes) v =
      process_all-Shown (process_scancode decoder s byte) bytes (process_scancode-Shown s byte v)

init-Shown : Shown init
unfolding init led_byte ring_init
init-Shown = record {
  led = refl;
  sent = refl;
  ring = record { storage = refl; head_in = omega arith; tail_in = omega arith };
}

-- Whatever bytes the keyboard sends and whatever the decoder makes of them, the last byte that was
-- sent to the keyboard shows the state of the lock keys, and the ring of the programs is well
-- formed.
pub reachable-Shown :
    (decoder : Decoder) (kb : decoder.State) (bytes : List ℕ)
    → Shown (process_all decoder (some kb, init) bytes).1
reachable-Shown decoder kb bytes = process_all-Shown decoder (some kb, init) bytes init-Shown
