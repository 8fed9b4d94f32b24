-- ===== src/Fat/Cache/Entries.antt =====
-- The buffers of fd32/modules/fat/volume.c as those that fd32/modules/fat/alloc.c reads and writes entries
-- in.
use free_dos.Common.{
  ℕ, ◌-◌, ◌%◌, ◌^◌, ◌<◌, ◌≡◌, refl, ◌≢◌, ◌⊎◌, inl, inr, ap, sym, ◌∙◌, subst, true, false, ◌==◌,
  ◌&&◌, if◌then◌else◌, Option, none, some, length, set, arith, Bool-cases, get_or-set_self,
}
use free_dos.Common.Errno.{Res, ok, err, eio, einval, enospc, M}
use free_dos.Fat.Cache.{
  Sector, BlockDev, Buffer, Cache, blank, covers, find_buffer, buffer_at, set_buffer, fat_readbuf,
  fat_dirtybuf,
}
use free_dos.Fat.Cache.View.{DevLaws, covers_lem}
use free_dos.Fat.Cache.Flush.{IsWell, view}
use free_dos.Fat.Cache.Changed.{
  set-get_or, set-set, changed, changed-covered, changed-other, find_buffer-changed,
}
use free_dos.Fat.Cache.Read.{fat_readbuf-Reads}
use free_dos.Fat.Cache.Dirty.{fat_dirtybuf-Dirties}
use free_dos.Fat.Entry.{Buffers}
use free_dos.Fat.Entry.Laws.{BufferLaws}

-- A byte is stored in the data of a buffer.
abbrev put_in : (ℕ → Sector) → ℕ → ℕ → ℕ → ℕ → Sector
put_in contents k o x k' o' = if k' == k && o' == o then x else contents k' o'

abbrev no_place : {A : Type 0} → Res A → Res (Unit {0})
no_place (ok p) = ok tt
no_place (err e) = err e

module _ {D : Type 0} (dev : BlockDev D) where
  -- The buffer that holds a sector is found by the sector.
  abbrev byte_in : Option ℕ → Cache D → ℕ → ℕ → ℕ
  byte_in none c a o = 0
  byte_in (some i) c a o = (buffer_at c i).contents (a - (buffer_at c i).sector) o % 256

  abbrev put_byte : Option ℕ → ℕ → ℕ → ℕ → Cache D → Cache D
  put_byte none a o x c = c
  put_byte (some i) a o x c =
      let b = buffer_at c i in
      set_buffer i (record b { contents = put_in b.contents (a - b.sector) o x }) c

  abbrev mark : Option ℕ → M (Cache D) (Unit {0})
  mark none c = (err einval, c)
  mark (some i) c = fat_dirtybuf dev i false c

  abbrev pub cached : Buffers (Cache D)
  cached = record {
    fat_readbuf = λ a c. let r = fat_readbuf dev a none c in (no_place (r.0), r.1);
    fat_dirtybuf = λ a c. mark (find_buffer c.buffers a) c;
    byte = λ c a o. byte_in (find_buffer c.buffers a) c a o;
    put = λ a o x c. put_byte (find_buffer c.buffers a) a o x c;
  }

module _ {D : Type 0} {dev : BlockDev D} {blocks : ℕ} (laws : DevLaws dev blocks) where
  -- Well-formed buffers, but for the contents of the buffer of the sector, which may be changed and not
  -- marked.
  pub record Holding (a : ℕ) (c : Cache D) : Type 0 where
    start : Cache D
    place : ℕ
    contents : ℕ → Sector
    well : IsWell laws start
    inside : place < length start.buffers
    holds : covers (buffer_at start place) a ≡ true
    state :
        c ≡ record start { buffers = set start.buffers place (changed well place contents inside) }

  abbrev seen_byte : Cache D → ℕ → ℕ → ℕ
  seen_byte c a o = view laws c a o % 256

  pub read_answers :
      (c : Cache D) (a : ℕ)
      → IsWell laws c
      → let r = (cached dev).fat_readbuf a c in
        ((r.0 ≡ ok tt) × Holding a r.1) ⊎ ((e : ℕ) × (r.0 ≡ err e) × (e ≢ enospc))
  read_answers c a w =
      let c' = (fat_readbuf dev a none c).1 in
      let (keeps, out) = fat_readbuf-Reads laws a none c w (λ i e. cc) in
      elim out [
        | inr e ↦ inr (eio, ap no_place e, omega arith)
        | inl (i, off, e, (l, h, x, y)) ↦ inl (
          ap no_place e,
          record {
            start = c';
            place = i;
            contents = (buffer_at c' i).contents;
            well = keeps.well;
            inside = l;
            holds = h;
            state = ap (λ bs. record c' { buffers = bs }) (sym (set-get_or c'.buffers i blank));
          },
        )
      ]

  module _ (a : ℕ) (start : Cache D) (place : ℕ) (contents : ℕ → Sector) (well : IsWell laws start)
      (inside : place < length start.buffers)
      (holds : covers (buffer_at start place) a ≡ true) where
    abbrev held : Buffer
    held = buffer_at start place

    abbrev state_of : (ℕ → Sector) → Cache D
    state_of bytes = record start {
      buffers = set start.buffers place (changed well place bytes inside);
    }

    abbrev here : Cache D
    here = state_of contents

    here_found : find_buffer here.buffers a ≡ some place
    here_found = find_buffer-changed well place contents inside a holds

    here_at : buffer_at here place ≡ record held { contents = contents }
    here_at = get_or-set_self start.buffers place (record held { contents = contents }) blank inside

    pub here_byte : (o : ℕ) → (cached dev).byte here a o ≡ seen_byte here a o
    here_byte o =
        ap (λ f. byte_in dev f here a o) here_found
        ∙ ap (λ w. w.contents (a - w.sector) o % 256) here_at
        ∙ ap (λ f. f o % 256) (sym (changed-covered well place contents inside a holds))

    here_put :
        (o x : ℕ) → (cached dev).put a o x here ≡ state_of (put_in contents (a - held.sector) o x)
    here_put o x =
        let old : Buffer = record held { contents = contents } in
        let put : Buffer → Buffer =
          λ w. record w { contents = put_in w.contents (a - w.sector) o x } in
        ap (λ f. put_byte dev f a o x here) here_found
        ∙ ap (λ w. set_buffer place (put w) here) here_at
        ∙ ap (λ bs. record start { buffers = bs }) (set-set start.buffers place old (put old))

    there_lem :
        (o x : ℕ) → seen_byte (state_of (put_in contents (a - held.sector) o x)) a o ≡ x % 2 ^ 8
    there_lem o x =
        ap (λ f. f o % 256)
          (changed-covered well place (put_in contents (a - held.sector) o x) inside a holds)
        ∙ ground arith

    elsewhere_lem :
        (o x a' o' : ℕ)
        → (a' ≢ a) ⊎ (o' ≢ o)
        → seen_byte (state_of (put_in contents (a - held.sector) o x)) a' o' ≡ seen_byte here a' o'
    elsewhere_lem o x a' o' d =
        let bytes = put_in contents (a - held.sector) o x in
        elim (Bool-cases (covers held a')) [
          | inl h ↦
              let (v, lo, hi) = covers_lem held a holds in
              let (v', lo', hi') = covers_lem held a' h in
              ap (λ f. f o' % 256) (changed-covered well place bytes inside a' h)
              ∙ ground arith
              ∙ ap (λ f. f o' % 256) (sym (changed-covered well place contents inside a' h))
          | inr h ↦
              ap (λ f. f o' % 256)
                (changed-other well place bytes inside a' h
                  ∙ sym (changed-other well place contents inside a' h))
        ]

    here_mark : (cached dev).fat_dirtybuf a here ≡ fat_dirtybuf dev place false here
    here_mark = ap (λ f. mark dev f here) here_found

    here_valid : held.valid ≡ true
    here_valid = (covers_lem held a holds).0

    mark_sound :
        IsWell laws ((fat_dirtybuf dev place false here).1)
        × ((a' : ℕ) → view laws ((fat_dirtybuf dev place false here).1) a' ≡ view laws here a')
        × (((fat_dirtybuf dev place false here).0 ≡ ok tt)
            ⊎ ((e : ℕ) × ((fat_dirtybuf dev place false here).0 ≡ err e)))
    mark_sound =
        let (w, inner, outer, out) =
          fat_dirtybuf-Dirties laws place contents start well inside here_valid false in
        (
          w,
          λ a'. elim (Bool-cases (covers held a')) [
            | inl h ↦ inner a' h ∙ sym (changed-covered well place contents inside a' h)
            | inr h ↦ outer a' h ∙ sym (changed-other well place contents inside a' h)
          ],
          elim out [ inl e ↦ inl e | inr e ↦ inr (eio, e) ],
        )

  -- A property of the states that hold the sector.
  pub on_held :
      (a : ℕ) (P : Cache D → Type 0)
      → ((start : Cache D) (place : ℕ) (contents : ℕ → Sector) (well : IsWell laws start)
            (inside : place < length start.buffers)
            (holds : covers (buffer_at start place) a ≡ true)
          → P (here a start place contents well inside holds))
      → (c : Cache D) → Holding a c
      → P c
  on_held a P f c h = subst P (sym h.state) (f h.start h.place h.contents h.well h.inside h.holds)

  abbrev marked : ℕ → Cache D → Res (Unit {0}) × Cache D
  marked a c = (cached dev).fat_dirtybuf a c

  pub mark_lem :
      (a : ℕ) (c : Cache D)
      → Holding a c
      → IsWell laws ((marked a c).1)
        × ((a' : ℕ) → view laws ((marked a c).1) a' ≡ view laws c a')
        × (((marked a c).0 ≡ ok tt) ⊎ ((e : ℕ) × ((marked a c).0 ≡ err e)))
  mark_lem a =
      on_held a
        (λ c.
          IsWell laws ((marked a c).1)
          × ((a' : ℕ) → view laws ((marked a c).1) a' ≡ view laws c a')
          × (((marked a c).0 ≡ ok tt) ⊎ ((e : ℕ) × ((marked a c).0 ≡ err e))))
        (λ start place contents well inside holds.
          let c = here a start place contents well inside holds in
          subst
            (λ r.
              IsWell laws (r.1)
              × ((a' : ℕ) → view laws (r.1) a' ≡ view laws c a')
              × ((r.0 ≡ ok tt) ⊎ ((e : ℕ) × (r.0 ≡ err e))))
            (sym (here_mark a start place contents well inside holds))
            (mark_sound a start place contents well inside holds))

  abbrev put_to : ℕ → ℕ → ℕ → Cache D → Cache D
  put_to a o x c = (cached dev).put a o x c

  pub put_lem :
      (a o x : ℕ) (c : Cache D)
      → Holding a c
      → Holding a (put_to a o x c)
        × (seen_byte (put_to a o x c) a o ≡ x % 2 ^ 8)
        × ((a' o' : ℕ) → (a' ≢ a) ⊎ (o' ≢ o) → seen_byte (put_to a o x c) a' o' ≡ seen_byte c a' o')
  put_lem a o x =
      on_held a
        (λ c.
          Holding a (put_to a o x c)
          × (seen_byte (put_to a o x c) a o ≡ x % 2 ^ 8)
          × ((a' o' : ℕ)
              → (a' ≢ a) ⊎ (o' ≢ o)
              → seen_byte (put_to a o x c) a' o' ≡ seen_byte c a' o'))
        (λ start place contents well inside holds.
          let new = put_in contents (a - (buffer_at start place).sector) o x in
          let c = here a start place contents well inside holds in
          subst
            (λ t.
              Holding a t
              × (seen_byte t a o ≡ x % 2 ^ 8)
              × ((a' o' : ℕ) → (a' ≢ a) ⊎ (o' ≢ o) → seen_byte t a' o' ≡ seen_byte c a' o'))
            (sym (here_put a start place contents well inside holds o x))
            (
              record {
                start = start;
                place = place;
                contents = new;
                well = well;
                inside = inside;
                holds = holds;
                state = refl;
              },
              there_lem a start place contents well inside holds o x,
              elsewhere_lem a start place contents well inside holds o x,
            ))

  pub same_view :
      (c : Cache D) (a : ℕ)
      → IsWell laws c
      → (a' : ℕ) → view laws ((fat_readbuf dev a none c).1) a' ≡ view laws c a'
  same_view c a w = (fat_readbuf-Reads laws a none c w (λ i e. cc)).0.same

  -- The buffers of a device that keeps its laws are buffers for the entries of the FAT.
  unfoldable pub cached-laws : BufferLaws (cached dev)
  cached-laws = record {
    IsSound = IsWell laws;
    Holds = Holding;
    seen = seen_byte;
    read_sound = λ c a w. (fat_readbuf-Reads laws a none c w (λ i e. cc)).0.well;
    read_keeps = λ c sector a o w. ap (λ f. f o % 256) (same_view c sector w a);
    read_answers = λ c a w. read_answers c a w;
    byte_seen = λ c a o.
        on_held a (λ t. (cached dev).byte t a o ≡ seen_byte t a o)
          (λ start place contents well inside holds.
            here_byte a start place contents well inside holds o)
          c;
    put_holds = λ c a o x h. (put_lem a o x c h).0;
    put_there = λ c a o x h. (put_lem a o x c h).1;
    put_elsewhere = λ c a o x a' o' h. (put_lem a o x c h).2 a' o';
    dirty_sound = λ c a h. (mark_lem a c h).0;
    dirty_keeps = λ c a a' o h. ap (λ f. f o % 256) ((mark_lem a c h).1 a');
    dirty_answers = λ c a h. (mark_lem a c h).2;
    is_byte = λ c a o. omega arith;
  }
