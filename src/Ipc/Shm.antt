-- ===== src/Ipc/Shm.antt =====
-- kernel/src/kernel/ipc/shm.rs: shared memory segments in a global table of sixteen, and the table
-- of eight attachments of each process. The page allocator is a parameter.
pub mod Valid
pub mod Ops
pub mod Round
pub mod Reach
pub mod Keep
mod Tests
use oxide_os.Prelude.{
  ℕ, ◌+◌, ◌-◌, ◌*◌, ◌/◌, ◌%◌, ◌^◌, Bool, true, false, not, ◌&&◌, ◌||◌, Option, none, some, List,
  ltb, leb, ◌==◌, if◌then◌else◌, ℤ, pos, neg, get_or, set, find_index,
}

abbrev pub max_segments : ℕ
max_segments = 16

abbrev pub max_seg_size : ℕ
max_seg_size = 0x10_0000

abbrev pub max_attach : ℕ
max_attach = 8

abbrev pub page_size : ℕ
page_size = 4096

abbrev pub shm_virt_base : ℕ
shm_virt_base = 0x2000_0000

abbrev pub shm_slot_size : ℕ
shm_slot_size = 0x10_0000

pub record ShmSegment : Type 0 where
  pub key : ℕ
  pub size : ℕ
  pub phys_base : ℕ
  pub pages : ℕ
  pub refcount : ℕ
  pub active : Bool

abbrev pub empty_segment : ShmSegment
empty_segment = record { key = 0; size = 0; phys_base = 0; pages = 0; refcount = 0; active = false }

pub record ShmAttach : Type 0 where
  pub shmid : ℕ
  pub vaddr : ℕ
  pub active : Bool

abbrev pub empty_attach : ShmAttach
empty_attach = record { shmid = 0; vaddr = 0; active = false }

-- What the segments need of the page allocator: frames in a row, the address 0 for none, and a
-- mapping of such frames into the page table `cr3`, false for an error.
pub record Paging : Type 1 where
  pub Memory : Type 0
  pub alloc_phys_frames : Memory → ℕ → ℕ × Memory
  pub map_phys_pages_in : Memory → ℕ → ℕ → ℕ → ℕ → Bool → Bool × Memory

-- The global table, the caller's attachments and the memory that both live in.
pub record State (M : Type 0) : Type 0 where
  pub segtab : List ShmSegment
  pub attaches : List ShmAttach
  pub memory : M

-- `SEGTAB[i]` and `attaches[i]`; every index that the code uses is inside the table.
abbrev pub segment_at : List ShmSegment → ℕ → ShmSegment
segment_at segtab i = get_or segtab i empty_segment

abbrev pub attach_at : List ShmAttach → ℕ → ShmAttach
attach_at attaches i = get_or attaches i empty_attach

abbrev pub has_key : ℕ → ShmSegment → Bool
has_key key s = s.active && s.key == key

abbrev pub inactive_segment : ShmSegment → Bool
inactive_segment s = not s.active

abbrev pub inactive_attach : ShmAttach → Bool
inactive_attach a = not a.active

abbrev pub attached_to : ℕ → ShmAttach → Bool
attached_to shmid a = a.active && a.shmid == shmid

abbrev pub attached_at : ℕ → ShmAttach → Bool
attached_at addr a = a.active && a.vaddr == addr

abbrev pub pages_for : ℕ → ℕ
pages_for size = (size + page_size - 1) / page_size

pub fresh_segment : ℕ → ℕ → ℕ → ShmSegment
fresh_segment key size phys = record {
  key = key;
  size = pages_for size * page_size;
  phys_base = phys;
  pages = pages_for size;
  refcount = 0;
  active = true;
}

abbrev pub vaddr_of : ℕ → ℕ
vaddr_of id = shm_virt_base + id * shm_slot_size

-- `refcount += 1` and `saturating_sub(1)` on a `u32`.
pub retained : ShmSegment → ShmSegment
retained s = record s { refcount = (s.refcount + 1) % 2 ^ 32 }

pub dropped : ShmSegment → ShmSegment
dropped s = record s { refcount = s.refcount - 1 }

module _ (paging : Paging) where
  open paging use {Memory, alloc_phys_frames, map_phys_pages_in}

  -- The flags of the source are not used by it.
  pub shmget : State Memory → ℕ → ℕ → ℤ × State Memory
  unfolding find_index fresh_segment
  shmget s key size =
      if size == 0 || ltb max_seg_size size
      then (neg 22, s)
      else elim (find_index (has_key key) s.segtab) [
        | some i ↦ (pos i, s)
        | none ↦ elim (find_index inactive_segment s.segtab) [
          | none ↦ (neg 28, s)
          | some slot ↦
              let (phys, memory') = alloc_phys_frames s.memory (pages_for size) in
              if phys == 0 then (neg 12, record s { memory = memory' }) else (
                pos slot,
                record s {
                  segtab = set s.segtab slot (fresh_segment key size phys);
                  memory = memory';
                },
              )
        ]
      ]

  pub shmat : State Memory → ℕ → ℕ → ℤ × State Memory
  unfolding find_index retained
  shmat s shmid cr3 =
      let segment = segment_at s.segtab shmid in
      if leb max_segments shmid || not segment.active
      then (neg 22, s)
      else elim (find_index (attached_to shmid) s.attaches) [
        | some i ↦ (pos (attach_at s.attaches i).vaddr, s)
        | none ↦ elim (find_index inactive_attach s.attaches) [
          | none ↦ (neg 24, s)
          | some slot ↦
              let vaddr = vaddr_of shmid in
              let (mapped, memory') =
                map_phys_pages_in s.memory cr3 vaddr segment.phys_base segment.pages true in
              if not mapped then (neg 12, record s { memory = memory' }) else (
                pos vaddr,
                record {
                  segtab = set s.segtab shmid (retained segment);
                  attaches =
                      set s.attaches slot (record { shmid = shmid; vaddr = vaddr; active = true });
                  memory = memory';
                },
              )
        ]
      ]

  pub shmdt : State Memory → ℕ → ℤ × State Memory
  unfolding find_index dropped
  shmdt s addr = elim (find_index (attached_at addr) s.attaches) [
    | none ↦ (neg 22, s)
    | some slot ↦
        let shmid = (attach_at s.attaches slot).shmid in
        let segment = segment_at s.segtab shmid in
        (
          pos 0,
          record s {
            attaches = set s.attaches slot empty_attach;
            segtab =
                if ltb shmid max_segments && segment.active
                then set s.segtab shmid (dropped segment)
                else s.segtab;
          },
        )
  ]

-- The queries of the compositor and of `fork`.
pub seg_phys_base : List ShmSegment → ℕ → ℕ
seg_phys_base segtab shmid =
    if leb max_segments shmid
    then 0
    else if (segment_at segtab shmid).active
    then (segment_at segtab shmid).phys_base
    else 0

unfoldable pub segment_pages : List ShmSegment → ℕ → ℕ
segment_pages segtab shmid =
    if leb max_segments shmid
    then 0
    else if (segment_at segtab shmid).active
    then (segment_at segtab shmid).pages
    else 0
