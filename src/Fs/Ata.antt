-- ===== src/Fs/Ata.antt =====
-- kernel/src/kernel/drivers/ata.rs as the file systems use it: reading and writing one sector of
-- the first disk. The driver itself, which drives ports, is a parameter.
use oxide_os.Prelude.{ℕ, ◌≡◌, ◌≢◌, Bool, true, Option, some}
use oxide_os.Fs.Mbr.{Sector}

-- A read gives none where the driver returns false; a write gives what it returns.
pub record Ata : Type 1 where
  pub Disk : Type 0
  pub read_sector : Disk → ℕ → Option Sector
  pub write_sector : Disk → ℕ → Sector → Bool × Disk

-- A write that succeeds is read back, and no write touches another sector.
pub record IsDisk (ata : Ata) : Type 0 where
  pub written :
      (d : ata.Disk) (lba : ℕ) (s : Sector)
      → (ata.write_sector d lba s).0 ≡ true
      → ata.read_sector (ata.write_sector d lba s).1 lba ≡ some s
  pub others :
      (d : ata.Disk) (lba : ℕ) (s : Sector) (other : ℕ)
      → other ≢ lba
      → ata.read_sector (ata.write_sector d lba s).1 other ≡ ata.read_sector d other

-- No sector fails.
pub record NeverFails (ata : Ata) : Type 0 where
  pub reads : (d : ata.Disk) (lba : ℕ) → (s : Sector) × (ata.read_sector d lba ≡ some s)
  pub writes : (d : ata.Disk) (lba : ℕ) (s : Sector) → (ata.write_sector d lba s).0 ≡ true
