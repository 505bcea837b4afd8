-- ===== src/Keyboard/Tests.antt =====
-- A small decoder: a byte from 128 on is the release of the key of the byte without its top bit.
use oxide_os.Prelude.{
  ℕ, ◌≡◌, ◌-◌, refl, Bool, true, false, ltb, ◌==◌, ◌||◌, if◌then◌else◌, Option, none, some, List,
  [], ◌∷◌,
}
use oxide_os.Keyboard.{
  KeyCode, l_shift, caps_lock, arrow_up, other, key_event, DecodedKey, unicode, raw_key, init,
  Decoder, process_scancode, process_all, on_added, update_modifiers, update_leds, led_byte,
  dispatch_decoded, dispatch_unicode, dispatch_raw_key, byte_of, ascii_of, is_shift_pressed,
  is_ctrl_pressed, is_alt_pressed, is_caps_lock_on,
}
use oxide_os.Keyboard.Leds.{Shown, reachable-Shown}
use oxide_os.Keyboard.Held.{
  Events, update_all, held, toggled, is_l_shift, is_r_shift, is_l_control, is_r_control, is_l_alt,
  is_r_alt_gr, is_caps_lock, queries-history,
}

abbrev key_of : ℕ → KeyCode
key_of n =
    if n == 42
    then l_shift
    else if n == 58
    then caps_lock
    else if n == 72
    then arrow_up
    else other n

abbrev decoded : KeyCode → Bool → Option DecodedKey
decoded (other n) true = some (unicode n)
decoded arrow_up true = some (raw_key arrow_up)
decoded code press = none

abbrev small : Decoder
small = record {
  State = ℕ;
  add_byte = λ s b.
      (s, if ltb b 128 then key_event (key_of b) true else key_event (key_of (b - 128)) false);
  process_keyevent = λ s code press. (s, decoded code press);
}

-- Caps lock, the letter a, the key up, and shift, which is held.
abbrev bytes : List ℕ
bytes = 58 ∷ 186 ∷ 97 ∷ 225 ∷ 72 ∷ 42 ∷ []

lights_caps : (process_all small (some 0, init) bytes).1.sent ≡ 6 ∷ 237 ∷ 2 ∷ 237 ∷ []
unfolding process_all process_scancode on_added update_modifiers update_leds led_byte init
    dispatch_decoded dispatch_unicode dispatch_raw_key byte_of ascii_of
lights_caps = refl

reachable-Shown_example : Shown (process_all small (some 0, init) bytes).1
reachable-Shown_example = reachable-Shown small 0 bytes

abbrev events : Events
events = (caps_lock, true) ∷ (caps_lock, false) ∷ (l_shift, true) ∷ []

shift_and_caps : (held is_l_shift false events ≡ true) × (toggled is_caps_lock false events ≡ true)
unfolding held toggled is_l_shift is_caps_lock
shift_and_caps = (refl, refl)

queries-history_example :
    (is_shift_pressed (update_all init events)
      ≡ held is_l_shift false events || held is_r_shift false events)
    × (is_ctrl_pressed (update_all init events)
        ≡ held is_l_control false events || held is_r_control false events)
    × (is_alt_pressed (update_all init events)
        ≡ held is_l_alt false events || held is_r_alt_gr false events)
    × (is_caps_lock_on (update_all init events) ≡ toggled is_caps_lock false events)
queries-history_example = queries-history events
