-- ===== src/Fs/Fifo.antt =====
-- The pipe of kernel/fs/fifo.cpp, on the kernel's memcpy. `buffer` is the address of its buffer of
-- 255 bytes; the constructor does not set `buffer_index`.
use weird_os.Base.{
  ℕ, ◌+◌, ◌-◌, ◌≤◌, ◌<◌, ◌≡◌, ◌⊎◌, inl, refl, ap, ◌∙◌, arith, ltb, leb, ◌&&◌, if◌then◌else◌, true,
  false, add32, sub32, add32-eq-add, sub32-eq-sub,
}
use weird_os.Clib.Memory.{Bytes, memcpy}
use weird_os.Clib.MemoryLaws.{memcpy-copies}

-- The object and the memory.
pub record Fifo : Type 0 where
  pub buffer : ℕ
  pub buffer_index : ℕ
  pub memory : Bytes

-- fifo::read: the number of bytes read, and the pipe behind it.
unfoldable pub read_fifo : (buf nbyte : ℕ) → Fifo → ℕ × Fifo
read_fifo buf nbyte f = if ltb f.buffer_index nbyte then (0, f) else (
  nbyte,
  record f {
    memory = memcpy f.buffer (f.buffer + nbyte) f.buffer_index (memcpy buf f.buffer nbyte f.memory);
    buffer_index = sub32 f.buffer_index nbyte;
  },
)

-- fifo::write. Nothing bounds the index.
unfoldable pub write_fifo : (buf n : ℕ) → Fifo → ℕ × Fifo
write_fifo buf n f = (
  n,
  record f {
    memory = memcpy (f.buffer + f.buffer_index) buf n f.memory;
    buffer_index = add32 f.buffer_index n;
  },
)

-- The areas share no byte.
abbrev pub Disjoint : (a n b m : ℕ) → Type 0
Disjoint a n b m = (a + n ≤ b) ⊎ (b + m ≤ a)

module _ (dest src n : ℕ) (m : Bytes) (order : (dest ≤ src) ⊎ (src + n ≤ dest)) where
  copied_inside : (i : ℕ) → i < n → memcpy dest src n m (dest + i) ≡ m (src + i)
  copied_inside i h =
      let e : (leb dest (dest + i) && ltb (dest + i) (dest + n)) ≡ true = ground arith in
      let at : dest + i - dest + src ≡ src + i = omega arith in
      rw (memcpy-copies dest src n m (dest + i) order, e, at) refl

  copied_outside : (a : ℕ) → (a < dest) ⊎ (dest + n ≤ a) → memcpy dest src n m a ≡ m a
  copied_outside a h =
      let e : (leb dest a && ltb a (dest + n)) ≡ false = ground arith in
      rw (memcpy-copies dest src n m a order, e) refl

-- Reading no more than there is, at most 255 bytes, gives the oldest bytes and keeps the others in
-- order, if the target lies outside the 512 bytes from the pipe's buffer on.
pub read_fifo-oldest :
    (buf nbyte : ℕ) (f : Fifo) (i : ℕ)
    → nbyte ≤ f.buffer_index
    → f.buffer_index < 0x100
    → Disjoint buf nbyte f.buffer 0x200
    → ((read_fifo buf nbyte f).0 ≡ nbyte)
      × ((read_fifo buf nbyte f).1.buffer_index ≡ f.buffer_index - nbyte)
      × (i < nbyte → (read_fifo buf nbyte f).1.memory (buf + i) ≡ f.memory (f.buffer + i))
      × (i < f.buffer_index - nbyte
          → (read_fifo buf nbyte f).1.memory (f.buffer + i) ≡ f.memory (f.buffer + (nbyte + i)))
unfolding read_fifo
read_fifo-oldest buf nbyte f i within small apart =
    let copied : Bytes = memcpy buf f.buffer nbyte f.memory in
    let enough : ltb f.buffer_index nbyte ≡ false = ground arith in
    let order : (buf ≤ f.buffer) ⊎ (f.buffer + nbyte ≤ buf) = ground arith in
    let down : (f.buffer ≤ f.buffer + nbyte) ⊎ (f.buffer + nbyte + f.buffer_index ≤ f.buffer) =
      inl (omega arith) in
    (
      rw enough refl,
      rw enough (sub32-eq-sub f.buffer_index nbyte within (omega arith)),
      (λ h. rw enough (
          copied_outside f.buffer (f.buffer + nbyte) f.buffer_index copied down (buf + i)
            (ground arith)
          ∙ copied_inside buf f.buffer nbyte f.memory order i h)),
      (λ h. rw enough (
          copied_inside f.buffer (f.buffer + nbyte) f.buffer_index copied down i (omega arith)
          ∙ copied_outside buf f.buffer nbyte f.memory order (f.buffer + nbyte + i) (ground arith)
          ∙ ap f.memory (omega arith))),
    )

-- Writing appends the bytes behind those that are there, if the index stays below 256 and the
-- source shares no byte with the place written to.
pub write_fifo-appends :
    (buf n : ℕ) (f : Fifo) (i : ℕ)
    → f.buffer_index + n < 0x100
    → Disjoint buf n (f.buffer + f.buffer_index) n
    → ((write_fifo buf n f).1.buffer_index ≡ f.buffer_index + n)
      × (i < n → (write_fifo buf n f).1.memory (f.buffer + f.buffer_index + i) ≡ f.memory (buf + i))
      × (i < f.buffer_index
          → (write_fifo buf n f).1.memory (f.buffer + i) ≡ f.memory (f.buffer + i))
unfolding write_fifo
write_fifo-appends buf n f i small apart =
    let dest : ℕ = f.buffer + f.buffer_index in
    let order : (dest ≤ buf) ⊎ (buf + n ≤ dest) = ground arith in
    (
      add32-eq-add f.buffer_index n (omega arith),
      (λ h. copied_inside dest buf n f.memory order i h),
      λ h. copied_outside dest buf n f.memory order (f.buffer + i) (inl (omega arith)),
    )
