-- ===== src/Keyb/Queues/Ring.antt =====
-- The key queue of fd32/modules/keyb/src/queues.c as a queue of keys.
use free_dos.Common.{
  ℕ, zero, suc, ◌+◌, ◌-◌, ◌*◌, ◌/◌, ◌%◌, ◌^◌, ◌≤◌, ◌<◌, ◌≡◌, refl, sym, ap, subst, ◌∙◌, ◌≢◌, ◌⊎◌,
  inl, inr, ◌==◌, true, false, List, [], ◌∷◌, ◌++◌, length, arith,
}
use free_dos.Common.Word.{sub32}
use free_dos.Keyb.Queues.{
  Queues, word_index, store, keyqueue_put, keyqueue_get, keyqueue_check, keyqueue_empty,
}

-- An index of a key: even, in the buffer.
abbrev pub IsIndex : ℕ → Type 0
IsIndex i = (i < 32) × (i % 2 ≡ 0)

-- Both pointers point to keys in the buffer.
abbrev pub IsQueue : Queues → Type 0
IsQueue q =
    (0x1E ≤ q.keyb_bufhead)
    × IsIndex (q.keyb_bufhead - 0x1E)
    × (0x1E ≤ q.keyb_buftail)
    × IsIndex (q.keyb_buftail - 0x1E)

-- `n` keys from index `i` on: character and scan code.
abbrev pub slots : ℕ → (ℕ → ℕ) → ℕ → List (ℕ × ℕ)
slots zero buf i = []
slots (suc n) buf i = (buf i, buf (i + 1)) ∷ slots n buf ((i + 2) % 32)

-- The keys between two pointers.
abbrev pub between : ℕ → ℕ → ℕ
between head tail = (tail + 32 - head) % 32 / 2

abbrev pub keys : Queues → List (ℕ × ℕ)
keys q = slots (between q.keyb_bufhead q.keyb_buftail) q.keyb_buf (q.keyb_bufhead - 0x1E)

length-slots : (n : ℕ) (buf : ℕ → ℕ) (i : ℕ) → length (slots n buf i) ≡ n
length-slots zero buf i = refl
length-slots (suc n) buf i = ap suc (length-slots n buf ((i + 2) % 32))

-- A key stored at `e`, which is none of the `n` ones.
slots-store :
    (n : ℕ) (buf : ℕ → ℕ) (i e v w : ℕ)
    → IsIndex i
    → IsIndex e
    → n ≤ (e + 32 - i) % 32 / 2
    → slots n (store (e + 1) w (store e v buf)) i ≡ slots n buf i
slots-store zero buf i e v w a b h = refl
slots-store (suc n) buf i e v w a b h =
    let ih = slots-store n buf ((i + 2) % 32) e v w (omega arith) b (omega arith) in
    rw ih (ground arith)

slots-append :
    (n : ℕ) (buf : ℕ → ℕ) (i : ℕ)
    → i < 32
    → slots (suc n) buf i
      ≡ slots n buf i ++ ((buf ((i + 2 * n) % 32), buf ((i + 2 * n) % 32 + 1)) ∷ [])
slots-append zero buf i h = let e : (i + 2 * 0) % 32 ≡ i = omega arith in rw e refl
slots-append (suc n) buf i h =
    let e : ((i + 2) % 32 + 2 * n) % 32 ≡ (i + 2 * suc n) % 32 = omega arith in
    ap (λ l. (buf i, buf (i + 1)) ∷ l) (rw (← e) (slots-append n buf ((i + 2) % 32) (omega arith)))

abbrev key : ℕ → ℕ × ℕ
key code = (code % 2 ^ 8, code / 2 ^ 8 % 2 ^ 8)

-- What is stored, by the tail as an index.
put_lem :
    (code : ℕ) (q : Queues)
    → IsQueue q
    → let i = q.keyb_buftail - 0x1E in
      keyqueue_put code q ≡ record q {
        keyb_buf = store (i + 1) (code / 2 ^ 8 % 2 ^ 8) (store i (code % 2 ^ 8) q.keyb_buf);
        keyb_buftail = (i + 2) % 32 + 0x1E;
      }
unfolding keyqueue_put
put_lem code q g =
    let i : word_index q.keyb_buftail ≡ q.keyb_buftail - 0x1E = omega arith in
    let r : (q.keyb_buftail - 0x1E + 1) % 32 ≡ q.keyb_buftail - 0x1E + 1 = omega arith in
    rw i (rw r refl)

-- There is room: the key stands behind the others.
put_room :
    (code : ℕ) (q : Queues)
    → IsQueue q
    → between q.keyb_bufhead q.keyb_buftail < 15
    → keys (keyqueue_put code q) ≡ keys q ++ (key code ∷ [])
put_room code q g l =
    let h = q.keyb_bufhead - 0x1E in
    let t = q.keyb_buftail - 0x1E in
    let n = between q.keyb_bufhead q.keyb_buftail in
    let buf = store (t + 1) (code / 2 ^ 8 % 2 ^ 8) (store t (code % 2 ^ 8) q.keyb_buf) in
    let grown : between q.keyb_bufhead ((t + 2) % 32 + 0x1E) ≡ suc n = omega arith in
    let last : (h + 2 * n) % 32 ≡ t = omega arith in
    let low : buf t ≡ code % 2 ^ 8 = ground arith in
    let high : buf (t + 1) ≡ code / 2 ^ 8 % 2 ^ 8 = ground arith in
    let kept =
      slots-store n q.keyb_buf h t (code % 2 ^ 8) (code / 2 ^ 8 % 2 ^ 8) g.1 g.3 (omega arith) in
    ap keys (put_lem code q g)
    ∙ ap (λ m. slots m buf h) grown
    ∙ slots-append n buf h (omega arith)
    ∙ ap (λ l. l ++ ((buf ((h + 2 * n) % 32), buf ((h + 2 * n) % 32 + 1)) ∷ [])) kept
    ∙ ap (λ i. slots n q.keyb_buf h ++ ((buf i, buf (i + 1)) ∷ [])) last
    ∙ ap (λ k. slots n q.keyb_buf h ++ (k ∷ [])) (λ i. (low i, high i))

put_full :
    (code : ℕ) (q : Queues)
    → IsQueue q
    → 15 ≤ between q.keyb_bufhead q.keyb_buftail
    → keys (keyqueue_put code q) ≡ []
put_full code q g l =
    let t = q.keyb_buftail - 0x1E in
    let buf = store (t + 1) (code / 2 ^ 8 % 2 ^ 8) (store t (code % 2 ^ 8) q.keyb_buf) in
    let none_left : between q.keyb_bufhead ((t + 2) % 32 + 0x1E) ≡ 0 = omega arith in
    ap keys (put_lem code q g) ∙ ap (λ m. slots m buf (q.keyb_bufhead - 0x1E)) none_left

length-keys : (q : Queues) → length (keys q) ≡ between q.keyb_bufhead q.keyb_buftail
length-keys q =
    length-slots (between q.keyb_bufhead q.keyb_buftail) q.keyb_buf (q.keyb_bufhead - 0x1E)

-- For a well-formed key queue: keyqueue_put leaves it well-formed; a key is put behind the others
-- where there were fewer than 15; where there were 15 the queue is empty afterwards: all keys are
-- lost.
pub keyqueue_put_lem :
    (code : ℕ) (q : Queues)
    → IsQueue q
    → let r = keyqueue_put code q in
      IsQueue r
      × (length (keys q) < 15 → keys r ≡ keys q ++ ((code % 2 ^ 8, code / 2 ^ 8 % 2 ^ 8) ∷ []))
      × (15 ≤ length (keys q) → keys r ≡ [])
keyqueue_put_lem code q g = (
  subst IsQueue (sym (put_lem code q g)) (omega arith),
  λ l. put_room code q g (omega (arith, length-keys q)),
  λ l. put_full code q g (omega (arith, length-keys q)),
)

get_empty :
    (q : Queues) → q.keyb_buftail ≡ q.keyb_bufhead → keyqueue_get q ≡ (0, record q { scancode = 0 })
unfolding keyqueue_get
get_empty q e = let b : (q.keyb_buftail == q.keyb_bufhead) ≡ true = ground arith in rw b refl

get_first :
    (q : Queues)
    → IsQueue q
    → q.keyb_buftail ≢ q.keyb_bufhead
    → let i = q.keyb_bufhead - 0x1E in
      keyqueue_get q ≡ (
        q.keyb_buf i,
        record q { keyb_bufhead = (i + 2) % 32 + 0x1E; scancode = q.keyb_buf (i + 1) },
      )
unfolding keyqueue_get
get_first q g d =
    let b : (q.keyb_buftail == q.keyb_bufhead) ≡ false = ground arith in
    let i : sub32 q.keyb_bufhead 0x1E ≡ q.keyb_bufhead - 0x1E = omega arith in rw b (rw i refl)

keys_empty : (q : Queues) → q.keyb_buftail ≡ q.keyb_bufhead → keys q ≡ []
keys_empty q e =
    let n : between q.keyb_bufhead q.keyb_buftail ≡ 0 = omega arith in
    ap (λ m. slots m q.keyb_buf (q.keyb_bufhead - 0x1E)) n

keys_first :
    (q : Queues)
    → IsQueue q
    → q.keyb_buftail ≢ q.keyb_bufhead
    → let i = q.keyb_bufhead - 0x1E in
      keys q
      ≡ (q.keyb_buf i, q.keyb_buf (i + 1)) ∷ keys (record q { keyb_bufhead = (i + 2) % 32 + 0x1E })
keys_first q g d =
    let i = q.keyb_bufhead - 0x1E in
    let n : between q.keyb_bufhead q.keyb_buftail
        ≡ suc (between ((i + 2) % 32 + 0x1E) q.keyb_buftail) =
      omega arith in
    let j : (i + 2) % 32 + 0x1E - 0x1E ≡ (i + 2) % 32 = omega arith in
    ap (λ m. slots m q.keyb_buf i) n
    ∙ ap
        (λ k.
          (q.keyb_buf i, q.keyb_buf (i + 1))
          ∷ slots (between ((i + 2) % 32 + 0x1E) q.keyb_buftail) q.keyb_buf k)
        (sym j)

no_keys : {l : List (ℕ × ℕ)} {k : ℕ × ℕ} {ks : List (ℕ × ℕ)} → l ≡ [] → l ≡ k ∷ ks → ⊥
no_keys a b = cc (a, b)

tail_same :
    {k k' : ℕ × ℕ} {ks ks' : List (ℕ × ℕ)} → ◌≡◌ {A = List (ℕ × ℕ)} (k ∷ ks) (k' ∷ ks') → ks ≡ ks'
tail_same e = cc e

-- For a well-formed key queue: keyqueue_get leaves it well-formed; where it holds no key the result
-- and the scan code are 0, and it stays empty; otherwise the result is the character of the first
-- key, the scan code is that of the first key, and the keys behind it remain.
pub keyqueue_get_lem :
    (q : Queues)
    → IsQueue q
    → let r = keyqueue_get q in
      IsQueue (r.1)
      × (keys q ≡ [] → (r.0 ≡ 0) × (r.1.scancode ≡ 0) × (keys (r.1) ≡ []))
      × ((k : ℕ × ℕ) (ks : List (ℕ × ℕ))
          → keys q ≡ k ∷ ks
          → (r.0 ≡ k.0) × (r.1.scancode ≡ k.1) × (keys (r.1) ≡ ks))
keyqueue_get_lem q g =
    let pointers : (q.keyb_buftail ≡ q.keyb_bufhead) ⊎ (q.keyb_buftail ≢ q.keyb_bufhead) =
      ground arith in
    elim pointers [
      | inl e ↦
          rw (get_empty q e)
            (g, λ h. (refl, refl, h), λ k ks h. absurd (no_keys (keys_empty q e) h))
      | inr d ↦
          let more = keys_first q g d in
          rw (get_first q g d) (
            omega arith,
            λ h. absurd (no_keys h more),
            λ k ks h.
                let same = sym more ∙ h in
                (ground (arith, same), ground (arith, same), tail_same same),
          )
    ]

-- For a well-formed key queue: keyqueue_empty says whether it holds no key, and keyqueue_check
-- returns what keyqueue_get returns, and leaves the keys alone.
pub keyqueue_check_lem :
    (q : Queues)
    → IsQueue q
    → (keyqueue_empty q ≡ true → keys q ≡ [])
      × (keys q ≡ [] → keyqueue_empty q ≡ true)
      × ((keyqueue_check q).0 ≡ (keyqueue_get q).0)
      × ((keyqueue_check q).1.scancode ≡ (keyqueue_get q).1.scancode)
      × (keys ((keyqueue_check q).1) ≡ keys q)
unfolding keyqueue_empty keyqueue_check keyqueue_get
keyqueue_check_lem q g =
    let pointers : (q.keyb_buftail ≡ q.keyb_bufhead) ⊎ (q.keyb_buftail ≢ q.keyb_bufhead) =
      ground arith in
    elim pointers [
      | inl e ↦
          let b : (q.keyb_buftail == q.keyb_bufhead) ≡ true = ground arith in
          rw b (λ h. keys_empty q e, λ h. refl, refl, refl, refl)
      | inr d ↦
          let b : (q.keyb_buftail == q.keyb_bufhead) ≡ false = ground arith in
          rw b (λ h. absurd (cc h), λ h. absurd (no_keys h (keys_first q g d)), refl, refl, refl)
    ]
