-- ===== src/Keyboard/Held.antt =====
-- The queries of the modifier state against the history of the key events.
use oxide_os.Prelude.{
  ◌≡◌, refl, ap, ap₂, ◌∙◌, Bool, true, false, not, ◌||◌, ◌==◌, if◌then◌else◌, List, [], ◌∷◌,
  Bool-cases, inl, inr,
}
use oxide_os.Keyboard.{
  KeyCode, l_shift, r_shift, l_control, r_control, l_alt, r_alt_gr, caps_lock, numpad_lock,
  scroll_lock, backspace, tab, enter, escape, arrow_up, arrow_down, arrow_right, arrow_left,
  page_up, page_down, home, to_end, delete, other, ModState, Driver, init, led_byte, update_leds,
  update_modifiers, is_shift_pressed, is_ctrl_pressed, is_alt_pressed, is_caps_lock_on,
}

abbrev pub Events : Type 0
Events = List (KeyCode × Bool)

unfoldable pub update_all : Driver → Events → Driver
update_all d [] = d
update_all d ((code, press) ∷ events) = update_all (update_modifiers d code press) events

-- Whether the key was last seen going down, `now` if it was not seen.
unfoldable pub held : (KeyCode → Bool) → Bool → Events → Bool
held is now [] = now
held is now ((code, press) ∷ events) = held is (if is code then press else now) events

-- Changed at every press of the key.
unfoldable pub toggled : (KeyCode → Bool) → Bool → Events → Bool
toggled is now [] = now
toggled is now ((code, press) ∷ events) =
    toggled is (if is code then (if press then not now else now) else now) events

unfoldable pub is_l_shift : KeyCode → Bool
is_l_shift l_shift = true
is_l_shift code = false

unfoldable pub is_r_shift : KeyCode → Bool
is_r_shift r_shift = true
is_r_shift code = false

unfoldable pub is_l_control : KeyCode → Bool
is_l_control l_control = true
is_l_control code = false

unfoldable pub is_r_control : KeyCode → Bool
is_r_control r_control = true
is_r_control code = false

unfoldable pub is_l_alt : KeyCode → Bool
is_l_alt l_alt = true
is_l_alt code = false

unfoldable pub is_r_alt_gr : KeyCode → Bool
is_r_alt_gr r_alt_gr = true
is_r_alt_gr code = false

unfoldable pub is_caps_lock : KeyCode → Bool
is_caps_lock caps_lock = true
is_caps_lock code = false

-- What one event makes of the keys of the queries.
abbrev Agrees : ModState → KeyCode → Bool → ModState → Type 0
Agrees before code press m =
    (m.lshift ≡ (if is_l_shift code then press else before.lshift))
    × (m.rshift ≡ (if is_r_shift code then press else before.rshift))
    × (m.lctrl ≡ (if is_l_control code then press else before.lctrl))
    × (m.rctrl ≡ (if is_r_control code then press else before.rctrl))
    × (m.lalt ≡ (if is_l_alt code then press else before.lalt))
    × (m.ralt ≡ (if is_r_alt_gr code then press else before.ralt))
    × (m.caps ≡ (
        if is_caps_lock code
        then (if press then not before.caps else before.caps)
        else before.caps))

mods-update_leds : (d : Driver) → (update_leds d).mods ≡ d.mods
unfolding update_leds
mods-update_leds d = elim (Bool-cases (led_byte d.mods == d.last_led)) [
  | inl e ↦ simp (update_leds, e) refl
  | inr e ↦ simp (update_leds, e) refl
]

update_modifiers-Agrees :
    (d : Driver) (code : KeyCode) (press : Bool)
    → Agrees d.mods code press (update_modifiers d code press).mods
unfolding update_modifiers is_l_shift is_r_shift is_l_control is_r_control is_l_alt is_r_alt_gr
    is_caps_lock
update_modifiers-Agrees d l_shift press = (refl, refl, refl, refl, refl, refl, refl)
update_modifiers-Agrees d r_shift press = (refl, refl, refl, refl, refl, refl, refl)
update_modifiers-Agrees d l_control press = (refl, refl, refl, refl, refl, refl, refl)
update_modifiers-Agrees d r_control press = (refl, refl, refl, refl, refl, refl, refl)
update_modifiers-Agrees d l_alt press = (refl, refl, refl, refl, refl, refl, refl)
update_modifiers-Agrees d r_alt_gr press = (refl, refl, refl, refl, refl, refl, refl)
update_modifiers-Agrees d caps_lock true =
    rw (mods-update_leds _) (refl, refl, refl, refl, refl, refl, refl)
update_modifiers-Agrees d caps_lock false = (refl, refl, refl, refl, refl, refl, refl)
update_modifiers-Agrees d numpad_lock true =
    rw (mods-update_leds _) (refl, refl, refl, refl, refl, refl, refl)
update_modifiers-Agrees d numpad_lock false = (refl, refl, refl, refl, refl, refl, refl)
update_modifiers-Agrees d scroll_lock true =
    rw (mods-update_leds _) (refl, refl, refl, refl, refl, refl, refl)
update_modifiers-Agrees d scroll_lock false = (refl, refl, refl, refl, refl, refl, refl)
update_modifiers-Agrees d backspace press = (refl, refl, refl, refl, refl, refl, refl)
update_modifiers-Agrees d tab press = (refl, refl, refl, refl, refl, refl, refl)
update_modifiers-Agrees d enter press = (refl, refl, refl, refl, refl, refl, refl)
update_modifiers-Agrees d escape press = (refl, refl, refl, refl, refl, refl, refl)
update_modifiers-Agrees d arrow_up press = (refl, refl, refl, refl, refl, refl, refl)
update_modifiers-Agrees d arrow_down press = (refl, refl, refl, refl, refl, refl, refl)
update_modifiers-Agrees d arrow_right press = (refl, refl, refl, refl, refl, refl, refl)
update_modifiers-Agrees d arrow_left press = (refl, refl, refl, refl, refl, refl, refl)
update_modifiers-Agrees d page_up press = (refl, refl, refl, refl, refl, refl, refl)
update_modifiers-Agrees d page_down press = (refl, refl, refl, refl, refl, refl, refl)
update_modifiers-Agrees d home press = (refl, refl, refl, refl, refl, refl, refl)
update_modifiers-Agrees d to_end press = (refl, refl, refl, refl, refl, refl, refl)
update_modifiers-Agrees d delete press = (refl, refl, refl, refl, refl, refl, refl)
update_modifiers-Agrees d (other n) press = (refl, refl, refl, refl, refl, refl, refl)

-- The state after a history, one key at a time.
pub record AgreesAll (before : ModState) (events : Events) (m : ModState) : Type 0 where
  pub lshift : m.lshift ≡ held is_l_shift before.lshift events
  pub rshift : m.rshift ≡ held is_r_shift before.rshift events
  pub lctrl : m.lctrl ≡ held is_l_control before.lctrl events
  pub rctrl : m.rctrl ≡ held is_r_control before.rctrl events
  pub lalt : m.lalt ≡ held is_l_alt before.lalt events
  pub ralt : m.ralt ≡ held is_r_alt_gr before.ralt events
  pub caps : m.caps ≡ toggled is_caps_lock before.caps events

update_all-Agrees :
    (d : Driver) (events : Events) → AgreesAll d.mods events (update_all d events).mods
unfolding update_all held toggled
update_all-Agrees d [] = record {
  lshift = refl;
  rshift = refl;
  lctrl = refl;
  rctrl = refl;
  lalt = refl;
  ralt = refl;
  caps = refl;
}
update_all-Agrees d ((code, press) ∷ events) =
    let one = update_modifiers-Agrees d code press in
    let rest = update_all-Agrees (update_modifiers d code press) events in
    record {
      lshift = rest.lshift ∙ ap (λ b. held is_l_shift b events) one.0;
      rshift = rest.rshift ∙ ap (λ b. held is_r_shift b events) one.1;
      lctrl = rest.lctrl ∙ ap (λ b. held is_l_control b events) one.2;
      rctrl = rest.rctrl ∙ ap (λ b. held is_r_control b events) one.3;
      lalt = rest.lalt ∙ ap (λ b. held is_l_alt b events) one.4;
      ralt = rest.ralt ∙ ap (λ b. held is_r_alt_gr b events) one.5;
      caps = rest.caps ∙ ap (λ b. toggled is_caps_lock b events) one.6;
    }

-- After a history of key events from the start, shift, control and alt are pressed exactly when
-- one of their two keys was last seen going down, and caps lock is on exactly when it went down
-- an odd number of times.
pub queries-history :
    (events : Events)
    → (is_shift_pressed (update_all init events)
        ≡ held is_l_shift false events || held is_r_shift false events)
      × (is_ctrl_pressed (update_all init events)
          ≡ held is_l_control false events || held is_r_control false events)
      × (is_alt_pressed (update_all init events)
          ≡ held is_l_alt false events || held is_r_alt_gr false events)
      × (is_caps_lock_on (update_all init events) ≡ toggled is_caps_lock false events)
unfolding is_shift_pressed is_ctrl_pressed is_alt_pressed is_caps_lock_on init
queries-history events =
    let all = update_all-Agrees init events in
    (
      ap₂ (λ a b. a || b) all.lshift all.rshift,
      ap₂ (λ a b. a || b) all.lctrl all.rctrl,
      ap₂ (λ a b. a || b) all.lalt all.ralt,
      all.caps,
    )
