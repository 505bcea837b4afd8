-- ===== src/Keyboard.antt =====
-- kernel/src/kernel/drivers/keyboard.rs: from a byte of the keyboard to the ring of the programs,
-- the modifier keys and the lights. The decoder is the crate pc-keyboard, a parameter; ports are
-- the bytes that the driver sends, and a callback is the fact that it was called.
pub mod Leds
pub mod Held
mod Tests
use Prim.Native.Nat.{bit_or}
use oxide_os.Prelude.{
  ℕ, Bool, true, false, not, ◌&&◌, ◌||◌, Option, none, some, List, [], ◌∷◌, leb, ◌==◌,
  if◌then◌else◌,
}
use oxide_os.Ipc.Stdin.{Ring, ring_init, push}

-- The codes that the driver names; `other` is any other code of the crate.
pub data KeyCode : Type 0 where
  l_shift : KeyCode
  r_shift : KeyCode
  l_control : KeyCode
  r_control : KeyCode
  l_alt : KeyCode
  r_alt_gr : KeyCode
  caps_lock : KeyCode
  numpad_lock : KeyCode
  scroll_lock : KeyCode
  backspace : KeyCode
  tab : KeyCode
  enter : KeyCode
  escape : KeyCode
  arrow_up : KeyCode
  arrow_down : KeyCode
  arrow_right : KeyCode
  arrow_left : KeyCode
  page_up : KeyCode
  page_down : KeyCode
  home : KeyCode
  to_end : KeyCode
  delete : KeyCode
  other : ℕ → KeyCode

-- What the decoder makes of a byte: an event, with whether the key went down, no event yet, or an
-- error.
pub data Added : Type 0 where
  key_event : KeyCode → Bool → Added
  incomplete : Added
  bad : Added

pub data DecodedKey : Type 0 where
  unicode : ℕ → DecodedKey
  raw_key : KeyCode → DecodedKey

pub data ArrowKey : Type 0 where
  up : ArrowKey
  down : ArrowKey
  left : ArrowKey
  right : ArrowKey
  page_up : ArrowKey
  page_down : ArrowKey

pub data Called : Type 0 where
  key_callback : ℕ → Called
  gui_key_callback : ℕ → Called
  arrow_key_callback : ArrowKey → Called

pub record ModState : Type 0 where
  pub lshift : Bool
  pub rshift : Bool
  pub lctrl : Bool
  pub rctrl : Bool
  pub lalt : Bool
  pub ralt : Bool
  pub caps : Bool
  pub num : Bool
  pub scroll : Bool

-- The statics, the ring, and what was sent to the keyboard and called so far, the latest first.
-- A registration sets a callback and its flag together, so one flag stands for both.
pub record Driver : Type 0 where
  pub mods : ModState
  pub last_led : ℕ
  pub callback_enabled : Bool
  pub arrow_callback_enabled : Bool
  pub gui_callback : Bool
  pub stdin : Ring
  pub sent : List ℕ
  pub called : List Called

abbrev pub mods_init : ModState
mods_init = record {
  lshift = false;
  rshift = false;
  lctrl = false;
  rctrl = false;
  lalt = false;
  ralt = false;
  caps = false;
  num = true;
  scroll = false;
}

abbrev pub send_led_command : List ℕ → ℕ → List ℕ
send_led_command sent led = led ∷ 237 ∷ sent

-- After `init`, whose commands to the controller itself are left out.
unfoldable pub init : Driver
init = record {
  mods = mods_init;
  last_led = 2;
  callback_enabled = false;
  arrow_callback_enabled = false;
  gui_callback = false;
  stdin = ring_init;
  sent = send_led_command [] 2;
  called = [];
}

unfoldable pub register_key_callback : Driver → Driver
register_key_callback d = record d { callback_enabled = true }

unfoldable pub register_arrow_key_callback : Driver → Driver
register_arrow_key_callback d = record d { arrow_callback_enabled = true }

unfoldable pub register_gui_key_callback : Driver → Driver
register_gui_key_callback d = record d { gui_callback = true }

unfoldable pub led_byte : ModState → ℕ
led_byte m =
    bit_or (bit_or (if m.scroll then 1 else 0) (if m.num then 2 else 0)) (if m.caps then 4 else 0)

unfoldable pub update_leds : Driver → Driver
update_leds d =
    let led = led_byte d.mods in
    if led == d.last_led then d else record d { last_led = led; sent = send_led_command d.sent led }

-- The lock keys change when they go down.
unfoldable pub update_modifiers : Driver → KeyCode → Bool → Driver
update_modifiers d l_shift press = record d { mods = record (d.mods) { lshift = press } }
update_modifiers d r_shift press = record d { mods = record (d.mods) { rshift = press } }
update_modifiers d l_control press = record d { mods = record (d.mods) { lctrl = press } }
update_modifiers d r_control press = record d { mods = record (d.mods) { rctrl = press } }
update_modifiers d l_alt press = record d { mods = record (d.mods) { lalt = press } }
update_modifiers d r_alt_gr press = record d { mods = record (d.mods) { ralt = press } }
update_modifiers d caps_lock true =
    update_leds (record d { mods = record (d.mods) { caps = not (d.mods.caps) } })
update_modifiers d numpad_lock true =
    update_leds (record d { mods = record (d.mods) { num = not (d.mods.num) } })
update_modifiers d scroll_lock true =
    update_leds (record d { mods = record (d.mods) { scroll = not (d.mods.scroll) } })
update_modifiers d code press = d

-- The byte for a character: a carriage return is a line end, and what is not ASCII, or is the
-- character 0 or 127, is dropped.
unfoldable pub byte_of : ℕ → Option ℕ
byte_of c =
    if c == 8
    then some 8
    else if c == 9
    then some 9
    else if c == 10 || c == 13
    then some 10
    else if leb 1 c && leb c 31
    then some c
    else if leb 32 c && leb c 126
    then some c
    else none

abbrev pub call_key : Driver → ℕ → List Called
call_key d byte = if d.callback_enabled then key_callback byte ∷ d.called else d.called

unfoldable pub dispatch_unicode : Driver → ℕ → Driver
dispatch_unicode d c = elim (byte_of c) [
  | none ↦ d
  | some byte ↦ record d {
    stdin = push d.stdin byte;
    called = if d.gui_callback then gui_key_callback byte ∷ call_key d byte else call_key d byte;
  }
]

unfoldable pub ascii_of : KeyCode → Option ℕ
ascii_of backspace = some 8
ascii_of tab = some 9
ascii_of enter = some 10
ascii_of escape = some 27
ascii_of code = none

-- The escape sequence of a key that moves.
unfoldable pub vt100_of : KeyCode → List ℕ
vt100_of arrow_up = 27 ∷ 91 ∷ 65 ∷ []
vt100_of arrow_down = 27 ∷ 91 ∷ 66 ∷ []
vt100_of arrow_right = 27 ∷ 91 ∷ 67 ∷ []
vt100_of arrow_left = 27 ∷ 91 ∷ 68 ∷ []
vt100_of page_up = 27 ∷ 91 ∷ 53 ∷ 126 ∷ []
vt100_of page_down = 27 ∷ 91 ∷ 54 ∷ 126 ∷ []
vt100_of home = 27 ∷ 91 ∷ 72 ∷ []
vt100_of to_end = 27 ∷ 91 ∷ 70 ∷ []
vt100_of delete = 27 ∷ 91 ∷ 51 ∷ 126 ∷ []
vt100_of code = []

unfoldable pub push_all : Ring → List ℕ → Ring
push_all r [] = r
push_all r (b ∷ bytes) = push_all (push r b) bytes

unfoldable pub arrow_of : KeyCode → Option ArrowKey
arrow_of arrow_up = some up
arrow_of arrow_down = some down
arrow_of arrow_left = some left
arrow_of arrow_right = some right
arrow_of page_up = some page_up
arrow_of page_down = some page_down
arrow_of code = none

abbrev pub call_arrow : Driver → KeyCode → List Called
call_arrow d code =
    if d.arrow_callback_enabled
    then elim (arrow_of code) [ none ↦ d.called | some arrow ↦ arrow_key_callback arrow ∷ d.called ]
    else d.called

unfoldable pub dispatch_raw_key : Driver → KeyCode → Driver
dispatch_raw_key d code = elim (ascii_of code) [
  | some byte ↦ record d { stdin = push d.stdin byte; called = call_key d byte }
  | none ↦ record d { stdin = push_all d.stdin (vt100_of code); called = call_arrow d code }
]

unfoldable pub dispatch_decoded : Driver → Option DecodedKey → Driver
dispatch_decoded d none = d
dispatch_decoded d (some (unicode c)) = dispatch_unicode d c
dispatch_decoded d (some (raw_key code)) = dispatch_raw_key d code

-- The decoder of the crate, with its state.
pub record Decoder : Type 1 where
  pub State : Type 0
  pub add_byte : State → ℕ → State × Added
  pub process_keyevent : State → KeyCode → Bool → State × Option DecodedKey

module _ (decoder : Decoder) where
  open decoder use {State, add_byte, process_keyevent}

  unfoldable pub on_added : State → Driver → Added → State × Driver
  on_added kb d (key_event code press) =
      let (next, decoded) = process_keyevent kb code press in
      (next, dispatch_decoded (update_modifiers d code press) decoded)
  on_added kb d incomplete = (kb, d)
  on_added kb d bad = (kb, d)

  -- Before `init` there is no decoder, and a byte is ignored.
  unfoldable pub process_scancode : Option State × Driver → ℕ → Option State × Driver
  unfolding on_added
  process_scancode (none, d) byte = (none, d)
  process_scancode (some kb, d) byte =
      let (next, added) = add_byte kb byte in
      let (last, after) = on_added next d added in (some last, after)

  unfoldable pub process_all : Option State × Driver → List ℕ → Option State × Driver
  process_all s [] = s
  process_all s (byte ∷ bytes) = process_all (process_scancode s byte) bytes

unfoldable pub is_shift_pressed : Driver → Bool
is_shift_pressed d = d.mods.lshift || d.mods.rshift

unfoldable pub is_ctrl_pressed : Driver → Bool
is_ctrl_pressed d = d.mods.lctrl || d.mods.rctrl

unfoldable pub is_alt_pressed : Driver → Bool
is_alt_pressed d = d.mods.lalt || d.mods.ralt

unfoldable pub is_caps_lock_on : Driver → Bool
is_caps_lock_on d = d.mods.caps
