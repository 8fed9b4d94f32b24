-- ===== src/Fat/Entry/Laws.antt =====
-- What fd32/modules/fat/alloc.c relies on in fat_readbuf and fat_dirtybuf of fd32/modules/fat/volume.c.
use free_dos.Common.{ℕ, ◌%◌, ◌^◌, ◌<◌, ◌≡◌, ◌≢◌, ◌⊎◌}
use free_dos.Common.Errno.{ok, err, enospc}
use free_dos.Fat.Entry.{Buffers}

-- `seen s a o` is byte `o` of sector `a` as a reader of the volume sees it. In a sound state a sector can be
-- read, which changes no byte that is seen, and puts the sector into a buffer (`Holds`). While a buffer
-- holds the sector, its bytes are what is seen, and bytes can be stored in it; the state need then not be
-- sound. Marking the buffer makes the state sound.
pub record BufferLaws {S : Type 0} (b : Buffers S) : Type 1 where
  pub IsSound : S → Type 0
  pub Holds : ℕ → S → Type 0
  pub seen : S → ℕ → ℕ → ℕ
  pub read_sound : (s : S) (sector : ℕ) → IsSound s → IsSound ((b.fat_readbuf sector s).1)
  pub read_keeps :
      (s : S) (sector a o : ℕ) → IsSound s → seen ((b.fat_readbuf sector s).1) a o ≡ seen s a o
  pub read_answers :
      (s : S) (sector : ℕ)
      → IsSound s
      → (((b.fat_readbuf sector s).0 ≡ ok tt) × Holds sector ((b.fat_readbuf sector s).1))
        ⊎ ((e : ℕ) × ((b.fat_readbuf sector s).0 ≡ err e) × (e ≢ enospc))
  pub byte_seen : (s : S) (a o : ℕ) → Holds a s → b.byte s a o ≡ seen s a o
  pub put_holds : (s : S) (a o x : ℕ) → Holds a s → Holds a (b.put a o x s)
  pub put_there : (s : S) (a o x : ℕ) → Holds a s → seen (b.put a o x s) a o ≡ x % 2 ^ 8
  pub put_elsewhere :
      (s : S) (a o x a' o' : ℕ)
      → Holds a s
      → (a' ≢ a) ⊎ (o' ≢ o)
      → seen (b.put a o x s) a' o' ≡ seen s a' o'
  pub dirty_sound : (s : S) (a : ℕ) → Holds a s → IsSound ((b.fat_dirtybuf a s).1)
  pub dirty_keeps :
      (s : S) (a a' o : ℕ) → Holds a s → seen ((b.fat_dirtybuf a s).1) a' o ≡ seen s a' o
  pub dirty_answers :
      (s : S) (a : ℕ)
      → Holds a s
      → ((b.fat_dirtybuf a s).0 ≡ ok tt) ⊎ ((e : ℕ) × ((b.fat_dirtybuf a s).0 ≡ err e))
  pub is_byte : (s : S) (a o : ℕ) → seen s a o < 256
