-- ===== src/Proc/Env.antt =====
-- kernel/src/kernel/proc/env.rs: the environment, a table of 32 variables. Keys and values are byte
-- lists; the arrays of an entry keep what a shorter key or value leaves behind.
pub mod Keys
pub mod Lookup
mod Tests
use oxide_os.Prelude.{
  ℕ, zero, suc, ◌+◌, ◌-◌, ◌%◌, ◌^◌, Bool, true, false, not, ◌&&◌, ◌||◌, Option, none, some, List,
  [], ◌∷◌, ◌++◌, ltb, leb, ◌==◌, if◌then◌else◌, length, get_or, set, take, drop, replicate,
  find_index,
}

abbrev pub max_vars : ℕ
max_vars = 32

abbrev pub max_key : ℕ
max_key = 32

abbrev pub max_val : ℕ
max_val = 256

pub record EnvEntry : Type 0 where
  pub key : List ℕ
  pub key_len : ℕ
  pub val : List ℕ
  pub val_len : ℕ
  pub used : Bool

abbrev pub empty_entry : EnvEntry
empty_entry = record {
  key = replicate max_key 0;
  key_len = 0;
  val = replicate max_val 0;
  val_len = 0;
  used = false;
}

abbrev pub EnvTable : Type 0
EnvTable = List EnvEntry

pub env_init : EnvTable
env_init = replicate max_vars empty_entry

-- The bytes of `a` from the start on agree with all of `b`.
pub bytes_eq : List ℕ → List ℕ → Bool
bytes_eq a [] = true
bytes_eq a (y ∷ b) = (get_or a 0 0 == y) && bytes_eq (drop 1 a) b

-- `src` written over the start of `dst`.
abbrev pub bytes_copy : List ℕ → List ℕ → List ℕ
bytes_copy dst src = src ++ drop (length src) dst

abbrev pub entry_at : EnvTable → ℕ → EnvEntry
entry_at table i = get_or table i empty_entry

-- The test that both loops over the used entries make.
pub has_key : List ℕ → EnvEntry → Bool
unfolding bytes_eq
has_key key e = e.used && ((e.key_len == length key) && bytes_eq e.key key)

abbrev pub is_free : EnvEntry → Bool
is_free e = not e.used

abbrev pub value_of : EnvEntry → List ℕ
value_of e = take e.val_len e.val

pub getenv : EnvTable → List ℕ → Option (List ℕ)
unfolding find_index has_key
getenv table key =
    if (length key == 0) || ltb max_key (length key)
    then none
    else elim (find_index (has_key key) table) [
      | none ↦ none
      | some i ↦ some (value_of (entry_at table i))
    ]

-- An entry removed, given another value, and filled for a new key.
pub removed : EnvEntry → EnvEntry
removed e = record e { used = false }

pub updated : List ℕ → EnvEntry → EnvEntry
updated val e = record e { val = bytes_copy e.val val; val_len = length val % 2 ^ 16 }

pub filled : List ℕ → List ℕ → EnvEntry → EnvEntry
filled key val e = record {
  key = bytes_copy e.key key;
  key_len = length key % 2 ^ 8;
  val = bytes_copy e.val val;
  val_len = length val % 2 ^ 16;
  used = true;
}

pub setenv : EnvTable → List ℕ → List ℕ → Bool × EnvTable
unfolding find_index has_key removed updated filled
setenv table key val =
    if (length key == 0) || (ltb max_key (length key) || ltb max_val (length val))
    then (false, table)
    else elim (find_index (has_key key) table) [
      | some i ↦
          let e = entry_at table i in
          (true, set table i (if length val == 0 then removed e else updated val e))
      | none ↦ if length val == 0 then (true, table) else elim (find_index is_free table) [
        | none ↦ (false, table)
        | some i ↦ (true, set table i (filled key val (entry_at table i)))
      ]
    ]

-- One variable as text, and those that fit into `room` bytes, with their number.
pub env_string : EnvEntry → List ℕ
env_string e = take e.key_len e.key ++ (b'=' ∷ value_of e ++ (0 ∷ []))

unfoldable pub write_env_strings : EnvTable → ℕ → ℕ × List ℕ
unfolding env_string
write_env_strings [] room = (0, [])
write_env_strings (e ∷ table) room =
    let needed = e.key_len + 1 + e.val_len + 1 in
    let skip = write_env_strings table room in
    let (count, bytes) = write_env_strings table (room - needed) in
    if not e.used || ltb room needed then skip else (suc count, env_string e ++ bytes)
