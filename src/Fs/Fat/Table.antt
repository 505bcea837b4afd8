-- ===== src/Fs/Fat/Table.antt =====
-- The entries of the allocation table under `fat_write_entry`.
use oxide_os.Prelude.{
  ℕ, zero, suc, ◌+◌, ◌*◌, ◌/◌, ◌%◌, ◌^◌, ◌<◌, ◌≤◌, ◌≡◌, ◌≢◌, inl, inr, refl, sym, ap, ◌∙◌, subst,
  true, Option, none, some, Option-cases, Bool-cases, arith, ℕ_discrete,
}
use oxide_os.Fs.Mbr.{Sector}
use oxide_os.Fs.Ata.{Ata, IsDisk}
use oxide_os.Fs.Fat.{Bpb, fat_lba, value_at, patched, write_copies, fat_write_entry}

-- A volume with a table of at most 2^16 entries, whose copies lie below 2^32.
pub record IsFat (bpb : Bpb) : Type 0 where
  pub copies : 0 < bpb.fat_count
  pub size : bpb.fat_size_16 ≤ 256
  pub fits : bpb.fat_start_lba + bpb.fat_count * bpb.fat_size_16 ≤ 2 ^ 32

-- The cluster has an entry.
abbrev pub InFat : Bpb → ℕ → Type 0
InFat bpb c = c < bpb.fat_size_16 * 256

pub mul_room : (s j n : ℕ) → j < n → j * s + s ≤ n * s
mul_room s j zero h = absurd (omega arith)
mul_room s j (suc n) h = elim (ℕ_discrete j n) [
  | yes e ↦ rw e (omega arith)
  | no ne ↦ omega (arith, mul_room s j n (omega (arith, ne)))
]

value_at-patched : (c value : ℕ) (buf : Sector) → value_at c (patched c value buf) ≡ value
unfolding patched
value_at-patched c value buf = ground arith

value_at-patched_other :
    (c other value : ℕ) (buf : Sector)
    → c * 2 / 512 ≡ other * 2 / 512
    → other ≢ c
    → value_at other (patched c value buf) ≡ value_at other buf
unfolding patched
value_at-patched_other c other value buf same ne = ground arith

abbrev pub entry_of : ℕ → Option Sector → Option ℕ
entry_of c none = none
entry_of c (some buf) = some (value_at c buf)

module _ (ata : Ata) (laws : IsDisk ata) (bpb : Bpb) (geometry : IsFat bpb) where
  open ata use {Disk, read_sector, write_sector}

  -- The entry of a cluster in the first copy.
  abbrev pub entry : Disk → ℕ → Option ℕ
  entry d c = entry_of c (read_sector d (fat_lba bpb c))

  -- The sector of a cluster's entry in copy `j`.
  abbrev place : ℕ → ℕ → ℕ
  place j c = (fat_lba bpb c + j * bpb.fat_size_16) % 2 ^ 32

  place_lem :
      (j c : ℕ)
      → j < bpb.fat_count
      → InFat bpb c
      → place j c ≡ bpb.fat_start_lba + c * 2 / 512 + j * bpb.fat_size_16
  place_lem j c h i = omega (arith, mul_room bpb.fat_size_16 j bpb.fat_count h, geometry.fits)

  place_ne :
      (j k c other : ℕ)
      → j < k
      → k < bpb.fat_count
      → InFat bpb c
      → InFat bpb other
      → place j c ≢ place k other
  place_ne j k c other h m i o e = omega (
    arith,
    mul_room bpb.fat_size_16 j k h,
    place_lem j c (omega arith) i,
    place_lem k other m o,
    e,
  )

  write_copies-other :
      (c value copy n : ℕ) (d : Disk) (lba : ℕ)
      → ((j : ℕ) → copy ≤ j → j < copy + n → lba ≢ place j c)
      → read_sector (write_copies ata bpb c value copy n d).1 lba ≡ read_sector d lba
  unfolding write_copies
  write_copies-other c value copy zero d lba away = refl
  write_copies-other c value copy (suc n) d lba away =
      let here = away copy (omega arith) (omega arith) in
      elim (Option-cases (read_sector d (place copy c))) [
        | inl e ↦ simp (write_copies, e) refl
        | inr (buf, e) ↦
            let w = write_sector d (place copy c) (patched c value buf) in
            let kept = laws.others d (place copy c) (patched c value buf) lba here in
            elim (Bool-cases w.0) [
              | inl t ↦
                  simp (write_copies, e, t)
                    (write_copies-other c value (suc copy) n w.1 lba
                        (λ j h m. away j (omega arith) (omega arith))
                      ∙ kept)
              | inr f ↦ simp (write_copies, e, f) kept
            ]
      ]

  -- A copy's sector was read and the entry in it set.
  abbrev Set : ℕ → ℕ → Disk → Disk → ℕ → Type 0
  Set c value d d1 j =
      (buf : Sector) × (read_sector d (place j c) ≡ some buf)
      × (read_sector d1 (place j c) ≡ some (patched c value buf))

  write_copies-Set :
      (c value copy n : ℕ) (d : Disk)
      → InFat bpb c
      → copy + n ≤ bpb.fat_count
      → (write_copies ata bpb c value copy n d).0 ≡ true
      → (j : ℕ) → copy ≤ j
      → j < copy + n
      → Set c value d (write_copies ata bpb c value copy n d).1 j
  unfolding write_copies
  write_copies-Set c value copy zero d i h = λ p j lo hi. absurd (omega arith)
  write_copies-Set c value copy (suc n) d i h = elim (Option-cases (read_sector d (place copy c))) [
    | inl e ↦ simp (write_copies, e) (λ p j lo hi. absurd (let z : ⊥ = cc in z))
    | inr (buf, e) ↦
        let new = patched c value buf in
        let w = write_sector d (place copy c) new in
        elim (Bool-cases w.0) [
          | inr f ↦ simp (write_copies, e, f) (λ p j lo hi. absurd (let z : ⊥ = cc in z))
          | inl t ↦
              simp (write_copies, e, t)
                (λ p j lo hi. elim (ℕ_discrete j copy) [
                  | yes same ↦ rw same (
                    buf,
                    e,
                    write_copies-other c value (suc copy) n w.1 (place copy c)
                          (λ k from to. place_ne copy k c c from (omega arith) i i)
                        ∙ laws.written d (place copy c) new t,
                  )
                  | no ne ↦
                      let (old, r, after) =
                        write_copies-Set c value (suc copy) n w.1 i (omega arith) p j
                          (omega (arith, ne)) (omega arith) in
                      (
                        old,
                        sym (
                              laws.others d (place copy c) new (place j c) (λ q.
                                place_ne copy j c c (omega (arith, ne)) (omega arith) i i (sym q)))
                            ∙ r,
                        after,
                      )
                ])
        ]
  ]

  -- The entry of the cluster has the value, every other entry is as it was, and in every copy the
  -- sector of the entry is the old one with the entry set.
  pub record Written (c value : ℕ) (d d1 : Disk) : Type 0 where
    pub value_set : entry d1 c ≡ some value
    pub others : (other : ℕ) → InFat bpb other → other ≢ c → entry d1 other ≡ entry d other
    pub copies : (j : ℕ) → j < bpb.fat_count → Set c value d d1 j

  place_zero : (c : ℕ) → InFat bpb c → place 0 c ≡ fat_lba bpb c
  place_zero c i = omega arith

  -- An entry in a sector that the cluster's entry is not in.
  elsewhere :
      (c other j : ℕ)
      → InFat bpb c
      → InFat bpb other
      → c * 2 / 512 ≢ other * 2 / 512
      → j < bpb.fat_count
      → fat_lba bpb other ≢ place j c
  elsewhere c other zero i o ne h e = omega (arith, place_lem 0 c h i, place_lem 0 other h o, e, ne)
  elsewhere c other (suc j) i o ne h e =
      place_ne 0 (suc j) other c (omega arith) h o i (place_zero other o ∙ e)

  -- Writing the entry of a cluster, where it succeeds.
  pub fat_write_entry-Written :
      (c value : ℕ) (d : Disk)
      → InFat bpb c
      → (fat_write_entry ata bpb c value d).0 ≡ true
      → Written c value d (fat_write_entry ata bpb c value d).1
  unfolding fat_write_entry
  fat_write_entry-Written c value d i done =
      let sets = write_copies-Set c value 0 bpb.fat_count d i (omega arith) done in
      let (buf, e, w) = sets 0 (omega arith) (omega (arith, geometry.copies)) in
      let e0 = subst (λ x. read_sector d x ≡ some buf) (place_zero c i) e in
      let w0 = subst (λ x. read_sector d1 x ≡ some (patched c value buf)) (place_zero c i) w in
      record {
        value_set = ap (entry_of c) w0 ∙ ap some (value_at-patched c value buf);
        others = λ other o ne. elim (ℕ_discrete (c * 2 / 512) (other * 2 / 512)) [
          | yes same ↦
              let at = ap (λ x. (bpb.fat_start_lba + x) % 2 ^ 32) same in
              ap (entry_of other) (subst (λ x. read_sector d1 x ≡ some (patched c value buf)) at w0)
              ∙ ap some (value_at-patched_other c other value buf same ne)
              ∙ sym (ap (entry_of other) (subst (λ x. read_sector d x ≡ some buf) at e0))
          | no differ ↦ ap (entry_of other) (
              write_copies-other c value 0 bpb.fat_count d (fat_lba bpb other)
                (λ j from to. elsewhere c other j i o differ (omega (arith, to))))
        ];
        copies = λ j h. sets j (omega arith) (omega (arith, h));
      }
    where
      d1 : Disk
      d1 = (write_copies ata bpb c value 0 bpb.fat_count d).1
